-- ===== src/Txn/Tests/Versions.antt =====
-- Runs of the transaction manager: transaction 1 runs, transaction 2 begins and commits.
use aidv.Prelude.{
  ◌≡◌, ◌≢◌, ◌<◌, refl, true, false, ◌&&◌, ◌||◌, not, none, some, [], ◌∷◌, arith, ◌==◌, ltb,
}
use aidv.Prelude.Assoc.{lookup}
use aidv.Txn.Watermark.{init, get_watermark}
use aidv.Txn.Manager.{
  Manager, Transaction, mvcc, is_mvcc, growing, committed, begin, is_visible, garbage_collection,
  get_version_link,
}
use aidv.Txn.Manager.Visibility.{runs, is_visible-begin, overlapped, late_registration}
use aidv.Txn.Manager.Collection.{
  Keyed, AllLead, Collected, garbage_collection-Collected, half_finished-collected,
}
use aidv.Txn.Manager.Finish.{commit_end, settle, commit-is_visible}

abbrev reader : Transaction
reader = record {
  state = growing;
  txn_id = 1;
  read_ts = 1;
  commit_ts = none;
  read_view = none;
  undo_logs = [];
}

abbrev halfway : Transaction
halfway = record {
  state = committed;
  txn_id = 2;
  read_ts = 2;
  commit_ts = none;
  read_view = none;
  undo_logs = [];
}

abbrev two_transactions : Manager
two_transactions = record {
  concurrency_mode = mvcc;
  next_txn_id = 3;
  next_timestamp = 3;
  running_txns = init 1;
  txn_map = (1, reader) ∷ (2, halfway) ∷ [];
  version_info =
      (
        4,
        (0, record { prev = record { prev_txn = some 1; prev_log_idx = 0 }; in_progress = false })
            ∷ [],
      )
      ∷ [];
  gc_counter = 0;
  gc_counter_abort = 0;
}

two-Keyed : Keyed two_transactions.txn_map
two-Keyed = (refl, (refl, tt))

two-AllLead : AllLead two_transactions
unfolding get_version_link
two-AllLead page_no slot_no link h = ground arith

is_visible-begin_example :
    (is_visible (begin two_transactions).0 (some 1)
      ≡ (1 == 3 || (ltb 1 3 && not (runs 1 two_transactions.txn_map))))
    × (is_visible (begin two_transactions).0 none ≡ true)
is_visible-begin_example = is_visible-begin two_transactions 1 refl

late_registration_example :
    (is_visible (overlapped two_transactions).1 (some (overlapped two_transactions).0.txn_id)
      ≡ true)
    × (runs (overlapped two_transactions).0.txn_id (overlapped two_transactions).2.txn_map ≡ true)
late_registration_example = late_registration two_transactions refl refl

garbage_collection-Collected_example :
    Collected two_transactions
      (0 ∷ 7 ∷ [])
      two-Keyed
      two-AllLead
      (garbage_collection two_transactions (0 ∷ 7 ∷ []))
garbage_collection-Collected_example =
    garbage_collection-Collected two_transactions (0 ∷ 7 ∷ []) two-Keyed two-AllLead

watermark_one : get_watermark (init 1) ≢ 0
unfolding get_watermark init
watermark_one e = ground arith

half_finished-collected_example : lookup 2 (garbage_collection two_transactions []).txn_map ≡ none
half_finished-collected_example =
    half_finished-collected two_transactions [] two-Keyed two-AllLead 2 halfway refl refl refl
      watermark_one

still_versions : is_mvcc (commit_end two_transactions reader []).concurrency_mode ≡ true
unfolding commit_end settle
still_versions = refl

given_out : 1 < (commit_end two_transactions reader []).next_txn_id
unfolding commit_end settle
given_out = omega arith

commit-is_visible_example :
    is_visible (begin (commit_end two_transactions reader [])).0 (some 1) ≡ true
commit-is_visible_example =
    commit-is_visible two_transactions reader [] two-Keyed still_versions given_out
