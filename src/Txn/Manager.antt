-- ===== src/Txn/Manager.antt =====
-- rmdb/src/transaction/transaction.h and transaction_manager.{h,cpp}: transactions with their read
-- views and undo logs, the map of transactions, and the version links of the records. A call is one
-- step here; the log, the locks and the undoing of writes are left out.
pub mod Visibility
pub mod Collection
pub mod Finish
use aidv.Prelude.{
  listed, ℕ, suc, ◌+◌, ◌≡◌, Bool, true, false, ◌&&◌, ◌||◌, not, Option, none, some, List, [], ◌∷◌,
  ◌++◌, ◌==◌, ltb, leb, if◌then◌else◌, length, get_elem?,
}
use aidv.Prelude.Assoc.{lookup, insert, erase}
use aidv.Txn.Watermark.{Watermark, add_txn, remove_txn, update_commit_ts, get_watermark}

pub data TransactionState : Type 0 where
  default_state growing shrinking committed aborted : TransactionState

-- `none` is INVALID_TXN_ID.
pub record UndoLink : Type 0 where
  pub prev_txn : Option ℕ
  pub prev_log_idx : ℕ

-- The fields that the manager reads: the old bytes, the timestamp and the next version.
pub record UndoLog : Type 0 where
  pub is_deleted : Bool
  pub old_data : List ℕ
  pub ts : ℕ
  pub prev_version : UndoLink

pub record ReadView : Type 0 where
  pub up_limit_id : ℕ
  pub low_limit_id : ℕ
  pub active_txn_ids : List ℕ

-- `read_view = none` is a view whose low limit is INVALID_TXN_ID, `commit_ts = none` is INVALID_TS.
pub record Transaction : Type 0 where
  pub state : TransactionState
  pub txn_id : ℕ
  pub read_ts : ℕ
  pub commit_ts : Option ℕ
  pub read_view : Option ReadView
  pub undo_logs : List UndoLog

pub has_read_view : Transaction → Bool
has_read_view txn = elim txn.read_view [ none ↦ false | some _ ↦ true ]

-- Visibility under a read view, of a transaction that is not the reader's own.
pub view_shows : ReadView → ℕ → Bool
view_shows rv trx_id =
    if ltb trx_id rv.up_limit_id
    then true
    else if leb rv.low_limit_id trx_id
    then false
    else not (listed trx_id rv.active_txn_ids)

-- `trx_id = none` is INVALID_TXN_ID.
pub is_visible : Transaction → Option ℕ → Bool
is_visible txn none = true
is_visible txn (some trx_id) =
    if trx_id == txn.txn_id
    then true
    else elim txn.read_view [ none ↦ true | some rv ↦ view_shows rv trx_id ]

-- The link to the log that was appended comes with the transaction.
pub append_undo_log : Transaction → UndoLog → Transaction × UndoLink
append_undo_log txn log = (
  record txn { undo_logs = txn.undo_logs ++ log ∷ [] },
  record { prev_txn = some txn.txn_id; prev_log_idx = length txn.undo_logs },
)

-- Two-phase locking, or versions.
pub data ConcurrencyMode : Type 0 where
  two_phase_locking basic_to mvcc : ConcurrencyMode

-- The first link of a record's version chain.
pub record VersionUndoLink : Type 0 where
  pub prev : UndoLink
  pub in_progress : Bool

-- `version_info` maps a page and a slot to the link of the newest old version.
pub record Manager : Type 0 where
  pub concurrency_mode : ConcurrencyMode
  pub next_txn_id : ℕ
  pub next_timestamp : ℕ
  pub running_txns : Watermark
  pub txn_map : List (ℕ × Transaction)
  pub version_info : List (ℕ × List (ℕ × VersionUndoLink))
  pub gc_counter : ℕ
  pub gc_counter_abort : ℕ

abbrev pub is_active : TransactionState → Bool
is_active growing = true
is_active shrinking = true
is_active _ = false

abbrev pub is_mvcc : ConcurrencyMode → Bool
is_mvcc mvcc = true
is_mvcc _ = false

-- The loop of `begin` over the map: the active transactions and the least of their ids.
pub active_ids : List (ℕ × Transaction) → List ℕ
active_ids [] = []
active_ids ((tid, t) ∷ txns) = if is_active t.state then tid ∷ active_ids txns else active_ids txns

pub least_id : ℕ → List ℕ → ℕ
least_id limit [] = limit
least_id limit (tid ∷ ids) = least_id (if ltb tid limit then tid else limit) ids

pub take_view : ℕ → List (ℕ × Transaction) → ReadView
take_view next_id txns = record {
  up_limit_id = least_id next_id (active_ids txns);
  low_limit_id = next_id;
  active_txn_ids = active_ids txns;
}

-- `begin` of a new transaction up to the last latch: it has its id, and its view is taken.
pub take_snapshot : Manager → Transaction × Manager
take_snapshot m =
    let id = m.next_txn_id in
    if is_mvcc m.concurrency_mode
    then (let txn : Transaction = record {
      state = growing;
      txn_id = id;
      read_ts = m.next_timestamp;
      commit_ts = none;
      read_view = some (take_view (suc id) m.txn_map);
      undo_logs = [];
    } in
        (
          txn,
          record m {
            next_txn_id = suc id;
            next_timestamp = suc m.next_timestamp;
            running_txns = add_txn m.running_txns m.next_timestamp;
          },
        ))
    else (let txn : Transaction = record {
      state = growing;
      txn_id = id;
      read_ts = 0;
      commit_ts = none;
      read_view = none;
      undo_logs = [];
    } in
        (txn, record m { next_txn_id = suc id }))

-- The transaction enters the map, under the latch.
pub register : Transaction → Manager → Manager
register txn m = record m { txn_map = insert txn.txn_id txn m.txn_map }

-- `begin` that no other thread interrupts.
pub begin : Manager → Transaction × Manager
begin m = let (txn, m') = take_snapshot m in (txn, register txn m')

-- `UpdateVersionLink` with a check that has been decided on the current link.
abbrev pub slots_of : Option (List (ℕ × VersionUndoLink)) → List (ℕ × VersionUndoLink)
slots_of none = []
slots_of (some slots) = slots

unfoldable pub get_version_link : Manager → ℕ → ℕ → Option VersionUndoLink
get_version_link m page_no slot_no = lookup slot_no (slots_of (lookup page_no m.version_info))

abbrev pub put_link :
    ℕ → Option VersionUndoLink → List (ℕ × VersionUndoLink) → List (ℕ × VersionUndoLink)
put_link slot_no none slots = erase slot_no slots
put_link slot_no (some link) slots = insert slot_no link slots

-- The page's entry is made before the check, also where the check then fails.
pub update_version_link :
    Manager → ℕ → ℕ → Option VersionUndoLink → (Option VersionUndoLink → Bool) → Bool × Manager
update_version_link m page_no slot_no prev_version check =
    let slots = slots_of (lookup page_no m.version_info) in
    if check (lookup slot_no slots)
    then (
      true,
      record m {
        version_info = insert page_no (put_link slot_no prev_version slots) m.version_info;
      },
    )
    else (false, record m { version_info = insert page_no slots m.version_info })

pub get_undo_log_optional : Manager → UndoLink → Option (Option UndoLog)
get_undo_log_optional m link = elim link.prev_txn [
  | none ↦ none
  | some id ↦ elim (lookup id m.txn_map) [
    | none ↦ none
    | some txn ↦ some (get_elem? txn.undo_logs link.prev_log_idx)
  ]
]

abbrev pub int64_max : ℕ
int64_max = 9223372036854775807

-- The least timestamp of a registered thread. A slot is 0 if no thread has it.
pub least_active : ℕ → List ℕ → ℕ
least_active least [] = least
least_active least (ts ∷ slots) =
    least_active (if ltb 0 ts && ltb ts least then ts else least) slots

pub global_min : ℕ → List ℕ → ℕ
global_min watermark slots =
    let least = least_active int64_max slots in if ltb watermark least then watermark else least

-- INVALID_TS is -1, below every limit.
abbrev pub ts_below : Option ℕ → ℕ → Bool
ts_below none limit = true
ts_below (some ts) limit = ltb ts limit

abbrev pub is_finished : TransactionState → Bool
is_finished committed = true
is_finished aborted = true
is_finished _ = false

pub to_erase : ℕ → List (ℕ × Transaction) → List ℕ
to_erase limit [] = []
to_erase limit ((txn_id, txn) ∷ txns) =
    if is_finished txn.state && ts_below txn.commit_ts limit
    then txn_id ∷ to_erase limit txns
    else to_erase limit txns

pub erase_each : List ℕ → List (ℕ × Transaction) → List (ℕ × Transaction)
erase_each [] txns = txns
erase_each (id ∷ ids) txns = erase_each ids (erase id txns)

-- The transaction that the link leads to has been deleted.
pub is_stale : List ℕ → List (ℕ × Transaction) → VersionUndoLink → Bool
is_stale deleted_ids txns link = elim link.prev.prev_txn [
  | none ↦ false
  | some id ↦
      if listed id deleted_ids then true else elim (lookup id txns) [ none ↦ true | some _ ↦ false ]
]

pub drop_stale :
    List ℕ → List (ℕ × Transaction) → List (ℕ × VersionUndoLink) → List (ℕ × VersionUndoLink)
drop_stale deleted_ids txns [] = []
drop_stale deleted_ids txns ((slot_no, link) ∷ slots) =
    let rest = drop_stale deleted_ids txns slots in
    if is_stale deleted_ids txns link then rest else (slot_no, link) ∷ rest

abbrev pub no_slots : List (ℕ × VersionUndoLink) → Bool
no_slots [] = true
no_slots (_ ∷ _) = false

pub clean_pages :
    List ℕ
    → List (ℕ × Transaction)
    → List (ℕ × List (ℕ × VersionUndoLink))
    → List (ℕ × List (ℕ × VersionUndoLink))
clean_pages deleted_ids txns [] = []
clean_pages deleted_ids txns ((page_no, slots) ∷ pages) =
    let rest = clean_pages deleted_ids txns pages in
    let kept = drop_stale deleted_ids txns slots in
    if no_slots kept then rest else (page_no, kept) ∷ rest

pub garbage_collection : Manager → List ℕ → Manager
garbage_collection m slots =
    let watermark = get_watermark m.running_txns in
    if watermark == 0
    then m
    else (let deleted_ids = to_erase (global_min watermark slots) m.txn_map in
        let txns = erase_each deleted_ids m.txn_map in
        record m {
          txn_map = txns;
          version_info = elim deleted_ids as (λ _. List (ℕ × List (ℕ × VersionUndoLink))) [
            | [] ↦ m.version_info
            | _ ∷ _ ↦ clean_pages deleted_ids txns m.version_info
          ];
        })
