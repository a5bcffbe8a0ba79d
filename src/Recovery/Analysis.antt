-- ===== src/Recovery/Analysis.antt =====
-- `RecoveryManager::analyze` of rmdb/src/recovery/log_recovery.cpp: the tables of the transactions
-- and of the records, from the log.
pub mod Loop
pub mod Tables
use aidv.Prelude.{
  insert_id, without, ℕ, zero, suc, ◌+◌, ◌-◌, ◌%◌, ◌^◌, ◌≡◌, Bool, true, false, ◌||◌, Option, none,
  some, List, [], ◌∷◌, ◌++◌, ltb, ◌==◌, if◌then◌else◌, length,
}
use aidv.Prelude.Assoc.{lookup, insert}
use aidv.Index.Node.{Rid}
use aidv.Record.{Answer, answers}
use aidv.Recovery.LogRecord.{
  LogRecord, LogBody, LogType, type_code, other, int_at, long_at, rid_at, invalid_lsn, offset_lsn,
  offset_log_tid, offset_log_data,
}
use aidv.Recovery.Walk.{walk}

-- A signed comparison of the patterns of two lsn_t.
abbrev pub rank : ℕ → ℕ
rank lsn = (lsn + 2 ^ 31) % 2 ^ 32

abbrev pub later : ℕ → ℕ → Bool
later a b = ltb (rank b) (rank a)

-- The members that `analyze` fills; the set and the maps are lists.
pub record Analysis : Type 0 where
  pub max_lsn : ℕ
  pub att : List ℕ
  pub txn_last_lsn : List (ℕ × ℕ)
  pub lsn_to_offset : List (ℕ × ℕ)
  pub dpt : List (ℕ × List ℕ)

abbrev pub cleared : Analysis
cleared = record {
  max_lsn = invalid_lsn;
  att = [];
  txn_last_lsn = [];
  lsn_to_offset = [];
  dpt = [];
}

-- `dpt_[page_no].push_back(lsn)`
abbrev pub dpt_push : ℕ → ℕ → List (ℕ × List ℕ) → List (ℕ × List ℕ)
dpt_push page_no lsn dpt = elim (lookup page_no dpt) [
  | none ↦ insert page_no (lsn ∷ []) dpt
  | some lsns ↦ insert page_no (lsns ++ (lsn ∷ [])) dpt
]

-- The switch. `page_no` is the page that the record of a change names.
pub switch : ℕ → ℕ → ℕ → ℕ → Analysis → Analysis
switch log_type lsn log_tid page_no a =
    if log_type == type_code LogType.begin
    then record a { att = insert_id log_tid a.att }
    else if log_type == type_code LogType.commit || log_type == type_code LogType.abort
    then record a { att = without log_tid a.att }
    else if log_type == type_code LogType.insert
        || (log_type == type_code LogType.delete || log_type == type_code LogType.update)
    then record a { dpt = dpt_push page_no lsn a.dpt }
    else a

-- What is done for every record, and then the switch.
pub note : ℕ → ℕ → ℕ → ℕ → ℕ → Analysis → Analysis
note offset log_type lsn log_tid page_no a = switch log_type lsn log_tid page_no (record a {
  max_lsn = if later lsn a.max_lsn then lsn else a.max_lsn;
  lsn_to_offset = insert lsn offset a.lsn_to_offset;
  txn_last_lsn = insert log_tid lsn a.txn_last_lsn;
})

-- Where the record of a change has its record id, behind one value or two.
pub rid_offset_at : (ℕ → ℕ) → ℕ → ℕ → ℕ
rid_offset_at buffer rec log_type =
    let record_size = int_at buffer (rec + offset_log_data) in
    let rid_offset = offset_log_data + 4 + record_size in
    if log_type == type_code LogType.update
    then rid_offset + (4 + int_at buffer (rec + rid_offset))
    else rid_offset

-- The body of the loop, at the record that starts at `rec`.
pub analyze_at : (ℕ → ℕ) → ℕ → Analysis → Answer Analysis
analyze_at buffer rec a =
    let log_type = int_at buffer rec in
    answers (
      note rec log_type (int_at buffer (rec + offset_lsn)) (long_at buffer (rec + offset_log_tid))
        (rid_at buffer (rec + rid_offset_at buffer rec log_type)).page_no a)

-- A record takes at least a byte, so the size of the log is fuel enough.
pub analyze : (ℕ → ℕ) → ℕ → Option (Answer Analysis)
analyze log_data log_size = walk log_data log_size (analyze_at log_data) (suc log_size) 0 cleared
