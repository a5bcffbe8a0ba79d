-- ===== src/Recovery/Redo.antt =====
-- `RecoveryManager::redo` of rmdb/src/recovery/log_recovery.cpp: the loop over the log. The source
-- writes its body three times, for an insertion, a deletion and an update, with one change in the
-- middle of each. What is written to disk at the end is left out.
pub mod Changes
pub mod Idempotence
pub mod Contents
pub mod Replay
pub mod Overcount
use aidv.Prelude.{
  ℕ, zero, suc, ◌+◌, ◌-◌, ◌^◌, ◌≡◌, Bool, true, false, ◌&&◌, Option, none, some, List, [], ◌∷◌, ltb,
  ◌==◌, if◌then◌else◌, length, take, drop, same_bytes,
}
use aidv.Index.Node.{Rid}
use aidv.Record.{
  RmFile, RmRecord, Answer, answers, fails, ◌>>=◌, insert_record_at, delete_record, update_record,
}
use aidv.Record.Readers.{is_record}
use aidv.Recovery.LogRecord.{LogRecord, LogBody, other, deserialize, le_value}
use aidv.Recovery.Walk.{walk}
use aidv.Recovery.Analysis.{later}

-- A table's open file, and the lsn that each of its pages carries.
pub record Table : Type 0 where
  pub file : RmFile
  pub page_lsn : ℕ → ℕ

-- `SmManager::fhs_`, by the bytes of the table's name.
abbrev pub Tables : Type 0
Tables = List ℕ → Option Table

pub put_table : Tables → List ℕ → Table → Tables
put_table tables name table name' = if same_bytes name name' then some table else tables name'

abbrev pub hidden_total_size : ℕ
hidden_total_size = 24

abbrev id_of : ℕ → Option ℕ
id_of pattern = if pattern == 2 ^ 64 - 1 then none else some pattern

-- The bytes of a slot as a record: the user's, the transaction's id and the roll pointer.
unfoldable pub unpack : List ℕ → RmRecord
unpack bytes =
    let user_size = length bytes - hidden_total_size in
    let hidden = drop user_size bytes in
    record {
      user_data = take user_size bytes;
      trx_id = id_of (le_value (take 8 hidden));
      roll_ptr = record {
        prev_txn = id_of (le_value (take 8 (drop 8 hidden)));
        prev_log_idx = le_value (take 4 (drop 16 hidden));
      };
    }

-- `set_num_pages` and `ensure_pages`
pub ensure_pages : RmFile → ℕ → RmFile
ensure_pages file target_pages =
    if ltb file.num_pages target_pages then record file { num_pages = target_pages } else file

-- The change of a record.
pub apply_change : LogBody → RmFile → Answer RmFile
apply_change other file = answers file
apply_change (LogBody.insert value rid name) file = insert_record_at file rid (unpack value)
apply_change (LogBody.delete value rid name) file = do
  there ← is_record file rid
  if there then delete_record file rid else answers file
apply_change (LogBody.update old_value new_value rid name) file = do
  there ← is_record file rid
  if there then update_record file rid (unpack new_value) else answers file

abbrev pub put_lsn : (ℕ → ℕ) → ℕ → ℕ → ℕ → ℕ
put_lsn page_lsn page_no lsn q = if page_no == q then lsn else page_lsn q

-- The change is made only on a page whose lsn is below the record's, and the page gets that lsn.
-- `page_no` is the number of a page, from 0 to 2^31 - 2. A negative one, and the greatest int, whose
-- successor overflows in C++, stand in no record that the program logs and are not modelled.
pub redo_table : ℕ → ℕ → LogBody → Table → Answer Table
redo_table lsn page_no body table =
    let file = ensure_pages table.file (suc page_no) in
    if later lsn (table.page_lsn page_no)
    then (do
      file' ← apply_change body file
      answers (record { file = file'; page_lsn = put_lsn table.page_lsn page_no lsn }))
    else answers (record table { file = file })

pub redo_in : ℕ → ℕ → List ℕ → LogBody → Tables → Answer Tables
redo_in lsn page_no name body tables = elim (tables name) [
  | none ↦ answers tables
  | some table ↦
      redo_table lsn page_no body table >>= λ table'. answers (put_table tables name table')
]

pub redo_record : ℕ → LogBody → Tables → Answer Tables
redo_record lsn other tables = answers tables
redo_record lsn (LogBody.insert value rid name) tables =
    redo_in lsn rid.page_no name (LogBody.insert value rid name) tables
redo_record lsn (LogBody.delete value rid name) tables =
    redo_in lsn rid.page_no name (LogBody.delete value rid name) tables
redo_record lsn (LogBody.update old_value new_value rid name) tables =
    redo_in lsn rid.page_no name (LogBody.update old_value new_value rid name) tables

-- The body of the loop.
pub redo_at : (ℕ → ℕ) → ℕ → Tables → Answer Tables
redo_at log_data offset tables =
    let r = deserialize log_data offset in redo_record r.header.lsn r.body tables

pub redo : (ℕ → ℕ) → ℕ → Tables → Option (Answer Tables)
redo log_data log_size tables = walk log_data log_size (redo_at log_data) (suc log_size) 0 tables
