-- ===== src/Txn/Manager/Visibility.antt =====
-- The snapshot that a transaction takes when it begins.
use aidv.Prelude.{
  listed, ℕ, suc, ◌≤◌, ◌≡◌, refl, Bool, true, false, ◌&&◌, ◌||◌, not, none, some, List, [], ◌∷◌,
  arith, ◌==◌, ltb, if◌then◌else◌,
}
use aidv.Txn.Manager.{
  Transaction, Manager, is_mvcc, view_shows, is_visible, is_active, active_ids, least_id, take_view,
  take_snapshot, register, begin,
}
use aidv.Prelude.Assoc.{insert}

-- The transaction runs in the manager's map.
abbrev pub runs : ℕ → List (ℕ × Transaction) → Bool
runs id [] = false
runs id ((tid, t) ∷ txns) = if tid == id && is_active t.state then true else runs id txns

-- Every id in the map has been given out.
abbrev pub ids_below : ℕ → List (ℕ × Transaction) → Bool
ids_below limit [] = true
ids_below limit ((tid, _) ∷ txns) = ltb tid limit && ids_below limit txns

listed-active_ids :
    (id : ℕ) (txns : List (ℕ × Transaction)) → listed id (active_ids txns) ≡ runs id txns
unfolding active_ids
listed-active_ids id [] = refl
listed-active_ids id ((tid, t) ∷ txns) = ground (arith, listed-active_ids id txns)

least_id_le : (limit : ℕ) (ids : List ℕ) → least_id limit ids ≤ limit
unfolding least_id
least_id_le limit [] = omega arith
least_id_le limit (tid ∷ ids) =
    ground (arith, least_id_le (if ltb tid limit then tid else limit) ids)

least_id-below : (limit id : ℕ) (ids : List ℕ) → listed id ids ≡ true → least_id limit ids ≤ id
unfolding least_id
least_id-below limit id [] h = absurd cc
least_id-below limit id (tid ∷ ids) h = ground (
  arith,
  least_id-below (if ltb tid limit then tid else limit) id ids,
  least_id_le (if ltb tid limit then tid else limit) ids,
)

take_view-shows :
    (next_id id : ℕ) (txns : List (ℕ × Transaction))
    → view_shows (take_view next_id txns) id ≡ (ltb id next_id && not (runs id txns))
unfolding view_shows take_view
take_view-shows next_id id txns = ground (
  arith,
  listed-active_ids id txns,
  least_id-below next_id id (active_ids txns),
  least_id_le next_id (active_ids txns),
)

-- A transaction that begins under versions sees the changes of another exactly if the other has
-- begun earlier and does not run any more. It sees its own changes, and those made outside of any
-- transaction.
pub is_visible-begin :
    (m : Manager) (id : ℕ)
    → is_mvcc m.concurrency_mode ≡ true
    → (is_visible (begin m).0 (some id)
        ≡ (id == m.next_txn_id || (ltb id m.next_txn_id && not (runs id m.txn_map))))
      × (is_visible (begin m).0 none ≡ true)
unfolding is_visible begin take_snapshot
is_visible-begin m id e =
    (ground (arith, e, take_view-shows (suc m.next_txn_id) id m.txn_map), refl)

runs-insert :
    (id : ℕ) (t : Transaction) (txns : List (ℕ × Transaction))
    → is_active t.state ≡ true
    → runs id (insert id t txns) ≡ true
runs-insert id t [] a = ground (arith, a)
runs-insert id t ((tid, u) ∷ txns) a = ground (arith, a, runs-insert id t txns)

-- One transaction begins, but before it enters the map, another begins from the first step to the
-- last; then the first enters. The other took its view without it.
abbrev pub overlapped : Manager → Transaction × Transaction × Manager
overlapped m =
    let (first, m1) = take_snapshot m in
    let (second, m2) = begin m1 in (first, second, register first m2)

-- Under versions, where the next id is not in use: if a transaction begins, but another begins from
-- the first step to the last before it enters the map, then the other sees the changes of the first,
-- although the first runs, as the map shows afterwards.
pub late_registration :
    (m : Manager)
    → is_mvcc m.concurrency_mode ≡ true
    → runs m.next_txn_id m.txn_map ≡ false
    → (is_visible (overlapped m).1 (some (overlapped m).0.txn_id) ≡ true)
      × (runs (overlapped m).0.txn_id (overlapped m).2.txn_map ≡ true)
unfolding is_visible begin take_snapshot register
late_registration m e h = (
  ground (arith, e, h, take_view-shows (suc (suc m.next_txn_id)) m.next_txn_id m.txn_map),
  ground (
    arith,
    e,
    runs-insert (overlapped m).0.txn_id (overlapped m).0 (begin (take_snapshot m).1).1.txn_map,
  ),
)
