-- ===== src/Recovery/Undo.antt =====
-- `RecoveryManager::undo` of rmdb/src/recovery/log_recovery.cpp: the changes of the transactions that
-- were active are taken back, from the last to the first.
pub mod Chain
pub mod Repeated
use aidv.Prelude.{
  ℕ, zero, suc, ◌+◌, ◌-◌, ◌≡◌, Bool, true, false, Option, none, some, List, [], ◌∷◌, ltb, ◌==◌,
  if◌then◌else◌,
}
use aidv.Prelude.Assoc.{lookup}
use aidv.Index.Node.{Rid}
use aidv.Record.{
  RmFile, RmRecord, Answer, answers, fails, ◌>>=◌, insert_record_at, delete_record, update_record,
  create_new_page_handle,
}
use aidv.Record.Readers.{get_record_snapshot}
use aidv.Recovery.LogRecord.{LogBody, LogType, type_code, other, invalid_lsn, deserialize}
use aidv.Recovery.Analysis.{Analysis}
use aidv.Recovery.Redo.{Table, Tables, put_table, unpack}

-- The slot's record belongs to the transaction.
abbrev pub belongs : ℕ → RmRecord → Bool
belongs txn_id rec = elim rec.trx_id [ none ↦ false | some id ↦ id == txn_id ]

-- The loop that adds pages, of which `left` are missing. `new_page` gives the next number.
pub add_pages : ℕ → RmFile → RmFile
add_pages zero file = file
add_pages (suc left) file = add_pages left (create_new_page_handle file file.num_pages).1

-- An insertion is undone by a deletion, also where the slot is empty.
pub undo_insert : ℕ → Rid → RmFile → Answer RmFile
undo_insert txn_id rid file =
    if ltb rid.page_no file.num_pages
    then (do
      at_slot ← get_record_snapshot file rid
      elim at_slot as (λ _. Answer RmFile) [
        | none ↦ delete_record file rid
        | some rec ↦ if belongs txn_id rec then delete_record file rid else answers file
      ])
    else answers file

pub undo_delete : Rid → List ℕ → RmFile → Answer RmFile
undo_delete rid value file =
    let file' = add_pages (suc rid.page_no - file.num_pages) file in
    do
      existing ← get_record_snapshot file' rid
      elim existing as (λ _. Answer RmFile) [
        | none ↦ insert_record_at file' rid (unpack value)
        | some _ ↦ answers file'
      ]

pub undo_update : ℕ → Rid → List ℕ → RmFile → Answer RmFile
undo_update txn_id rid old_value file =
    if ltb rid.page_no file.num_pages
    then (do
      at_slot ← get_record_snapshot file rid
      elim at_slot as (λ _. Answer RmFile) [
        | none ↦ update_record file rid (unpack old_value)
        | some rec ↦
            if belongs txn_id rec then update_record file rid (unpack old_value) else answers file
      ])
    else answers file

-- The file of the table that the record names, if it is open.
pub on_file : List ℕ → (RmFile → Answer RmFile) → Tables → Answer Tables
on_file name change tables = elim (tables name) [
  | none ↦ answers tables
  | some table ↦
      change table.file >>= λ file. answers (put_table tables name (record table { file = file }))
]

pub undo_change : ℕ → LogBody → Tables → Answer Tables
undo_change txn_id other tables = answers tables
undo_change txn_id (LogBody.insert value rid name) tables =
    on_file name (undo_insert txn_id rid) tables
undo_change txn_id (LogBody.delete value rid name) tables =
    on_file name (undo_delete rid value) tables
undo_change txn_id (LogBody.update old_value new_value rid name) tables =
    on_file name (undo_update txn_id rid old_value) tables

-- An exception ends the loop.
abbrev pub undo_on : (Tables → Option (Answer Tables)) → Answer Tables → Option (Answer Tables)
undo_on rest (fails e) = some (fails e)
undo_on rest (answers tables) = rest tables

-- The loop along the lsns of the transaction. `none` is the end of the fuel.
pub undo_txn : (ℕ → ℕ) → List (ℕ × ℕ) → ℕ → ℕ → ℕ → Tables → Option (Answer Tables)
undo_txn log_data lsn_to_offset txn_id zero lsn tables = none
undo_txn log_data lsn_to_offset txn_id (suc fuel) lsn tables =
    if lsn == invalid_lsn then some (answers tables) else elim (lookup lsn lsn_to_offset) [
      | none ↦ some (answers tables)
      | some offset ↦
          let r = deserialize log_data offset in
          let rest =
            undo_on (undo_txn log_data lsn_to_offset txn_id fuel r.header.prev_lsn)
              (undo_change txn_id r.body tables) in
          if r.header.log_type == type_code LogType.begin then some (answers tables) else rest
    ]

-- `txn_last_lsn_[txn_id]`, which is 0 where the key is missing.
abbrev pub last_of : ℕ → List (ℕ × ℕ) → ℕ
last_of txn_id txn_last_lsn = elim (lookup txn_id txn_last_lsn) [ none ↦ 0 | some lsn ↦ lsn ]

abbrev pub and_then :
    Option (Answer Tables) → (Tables → Option (Answer Tables)) → Option (Answer Tables)
and_then none rest = none
and_then (some a) rest = undo_on rest a

-- The loop over the active transactions.
pub undo_each : (ℕ → ℕ) → Analysis → ℕ → List ℕ → Tables → Option (Answer Tables)
undo_each log_data a fuel [] tables = some (answers tables)
undo_each log_data a fuel (txn_id ∷ txn_ids) tables =
    and_then (undo_txn log_data a.lsn_to_offset txn_id fuel (last_of txn_id a.txn_last_lsn) tables)
      (undo_each log_data a fuel txn_ids)

pub undo : (ℕ → ℕ) → Analysis → ℕ → Tables → Option (Answer Tables)
undo log_data a fuel tables = undo_each log_data a fuel a.att tables
