-- ===== src/Txn/Manager/Finish.antt =====
-- The end of `commit` and of `abort`, after the locks have been released.
use aidv.Prelude.{
  ℕ, suc, ◌%◌, ◌<◌, ◌≡◌, refl, true, false, none, some, List, [], ◌∷◌, arith, ◌==◌, if◌then◌else◌,
  inl, inr, Bool-cases,
}
use aidv.Prelude.Assoc.{lookup, insert, erase}
use aidv.Txn.Watermark.{remove_txn, update_commit_ts, get_watermark}
use aidv.Txn.Manager.{
  Transaction, TransactionState, committed, aborted, Manager, is_mvcc, is_active, erase_each,
  to_erase, global_min, garbage_collection, begin, is_visible,
}
use aidv.Txn.Manager.Collection.{Keyed}
use aidv.Txn.Manager.Visibility.{runs, is_visible-begin}

abbrev finished : Transaction → TransactionState → ℕ → Transaction
finished txn state ts = record txn { state = state; commit_ts = some ts }

-- The transaction that the map points to has changed, and its timestamps have been taken.
unfoldable pub settle : Manager → Transaction → TransactionState → Manager
settle m txn state = record m {
  next_timestamp = suc m.next_timestamp;
  txn_map = insert txn.txn_id (finished txn state m.next_timestamp) m.txn_map;
}

abbrev advance : Manager → Transaction → ℕ → Manager
advance m txn ts = record m {
  running_txns = update_commit_ts (remove_txn m.running_txns txn.read_ts) ts;
}

-- Every 16th time the garbage is collected.
abbrev collect_on : ℕ → Manager → List ℕ → Manager
collect_on count m slots = if count % 16 == 0 then garbage_collection m slots else m

unfoldable pub commit_end : Manager → Transaction → List ℕ → Manager
commit_end m txn slots =
    let m' = settle m txn committed in
    if is_mvcc m.concurrency_mode
    then collect_on (suc m.gc_counter)
        (record (advance m' txn m.next_timestamp) { gc_counter = suc m.gc_counter }) slots
    else record m' { txn_map = erase txn.txn_id m'.txn_map }

pub abort_end : Manager → Transaction → List ℕ → Manager
abort_end m txn slots =
    let m' = settle m txn aborted in
    if is_mvcc m.concurrency_mode
    then collect_on (suc m.gc_counter_abort)
        (record (advance m' txn m.next_timestamp) { gc_counter_abort = suc m.gc_counter_abort })
        slots
    else record m' { txn_map = erase txn.txn_id m'.txn_map }

runs-insert :
    (id : ℕ) (t : Transaction) (txns : List (ℕ × Transaction))
    → Keyed txns
    → runs id (insert id t txns) ≡ is_active t.state
runs-insert id t [] k = ground arith
runs-insert id t ((j, u) ∷ txns) k =
    ground (arith, runs-insert id t txns k.1, runs-absent id txns, k.0)
  where
    runs-absent :
        (id : ℕ) (txns : List (ℕ × Transaction)) → lookup id txns ≡ none → runs id txns ≡ false
    runs-absent id [] h = refl
    runs-absent id ((j, u) ∷ txns) h = ground (arith, runs-absent id txns)

runs-erase :
    (id k : ℕ) (txns : List (ℕ × Transaction))
    → runs id txns ≡ false
    → runs id (erase k txns) ≡ false
runs-erase id k [] h = refl
runs-erase id k ((j, u) ∷ txns) h = ground (arith, runs-erase id k txns)

runs-erase_each :
    (id : ℕ) (ids : List ℕ) (txns : List (ℕ × Transaction))
    → runs id txns ≡ false
    → runs id (erase_each ids txns) ≡ false
unfolding erase_each
runs-erase_each id [] txns h = h
runs-erase_each id (k ∷ ids) txns h = runs-erase_each id ids (erase k txns) (runs-erase id k txns h)

runs-garbage_collection :
    (m : Manager) (slots : List ℕ) (id : ℕ)
    → runs id m.txn_map ≡ false
    → runs id (garbage_collection m slots).txn_map ≡ false
unfolding garbage_collection
runs-garbage_collection m slots id h = elim (Bool-cases (get_watermark m.running_txns == 0)) [
  | inl z ↦ rw (z) h
  | inr n ↦ rw (n) (cleared (to_erase (global_min (get_watermark m.running_txns) slots) m.txn_map))
]
  where
    cleared : (ids : List ℕ) → runs id (erase_each ids m.txn_map) ≡ false
    cleared ids = runs-erase_each id ids m.txn_map h

settle-runs :
    (m : Manager) (txn : Transaction) (state : TransactionState)
    → Keyed m.txn_map
    → is_active state ≡ false
    → runs txn.txn_id (settle m txn state).txn_map ≡ false
unfolding settle
settle-runs m txn state k h =
    ground (arith, runs-insert txn.txn_id (finished txn state m.next_timestamp) m.txn_map k)

collect_on-runs :
    (count : ℕ) (m : Manager) (slots : List ℕ) (id : ℕ)
    → runs id m.txn_map ≡ false
    → runs id (collect_on count m slots).txn_map ≡ false
collect_on-runs count m slots id h = elim (Bool-cases (count % 16 == 0)) [
  | inl z ↦ rw (z) (runs-garbage_collection m slots id h)
  | inr n ↦ rw (n) h
]

module _ (m : Manager) (txn : Transaction) (slots : List ℕ) (k : Keyed m.txn_map) where
  pub commit_end-runs : runs txn.txn_id (commit_end m txn slots).txn_map ≡ false
  unfolding commit_end
  commit_end-runs = elim (Bool-cases (is_mvcc m.concurrency_mode)) [
    | inl y ↦
        rw (y) (
          collect_on-runs (suc m.gc_counter) _ slots txn.txn_id
            (settle-runs m txn committed k refl))
    | inr n ↦ rw (n) (runs-erase txn.txn_id txn.txn_id _ (settle-runs m txn committed k refl))
  ]

  -- If the map has no id twice, a transaction that begins under versions after the end of another's
  -- `commit`, whose id had been given out, sees its changes.
  pub commit-is_visible :
      is_mvcc (commit_end m txn slots).concurrency_mode ≡ true
      → txn.txn_id < (commit_end m txn slots).next_txn_id
      → is_visible (begin (commit_end m txn slots)).0 (some txn.txn_id) ≡ true
  commit-is_visible e h =
      ground (arith, is_visible-begin (commit_end m txn slots) txn.txn_id e, commit_end-runs)
