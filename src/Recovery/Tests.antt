-- ===== src/Recovery/Tests.antt =====
-- Runs of the recovery on small logs.
use aidv.Prelude.{
  ℕ, ◌<◌, ◌^◌, ◌≡◌, ◌≢◌, refl, true, false, none, some, List, [], ◌∷◌, ◌++◌, ◌==◌, arith, inl, inr,
  length, ap, Bool-cases, if◌then◌else◌, same_bytes,
}
use aidv.Prelude.Memory.{write_cells, write_cells-Holds}
use aidv.Index.Node.{Rid}
use aidv.Record.{
  fails, found, get_record, fetch_page_handle, record_not_found, ◌>>=◌, RmFile, RmPage, answers,
}
use aidv.Recovery.LogRecord.{
  invalid_lsn, LogRecord, LogBody, serialize, deserialize, record_bytes, header_bytes, body_bytes,
  int_bytes, long_bytes, value_bytes, place_bytes, begin_log_record, insert_log_record,
}
use aidv.Recovery.LogRecord.RoundTrip.{RecordFits, deserialize-serialize_log}
use aidv.Recovery.Walk.{LogFits, log_bytes, placed}
use aidv.Recovery.LogManager.{LogManager, stamp}
use aidv.Recovery.Analysis.{Analysis, analyze}
use aidv.Recovery.Redo.{Table, Tables, apply_change, unpack, redo, redo_table}
use aidv.Recovery.Redo.Idempotence.{redo-redo}
use aidv.Recovery.Redo.Contents.{Contents}
use aidv.Recovery.Redo.Overcount.{Overcounted, redo_table-overcounts}
use aidv.Recovery.Undo.{undo_txn, undo_insert, belongs}
use aidv.Recovery.Undo.Chain.{Descending, undo_txn-ends}
use aidv.Recovery.Undo.Repeated.{
  Restored, LeftThere, undo_on_file, undo-apply_change, undo_unowned, undo_insert-undo_insert,
}
use aidv.Recovery.LogManager.{init, is_persisted, log_buffer_size, is_full, buffered}
use aidv.Recovery.LogManager.Buffer.{Sized}
use aidv.Recovery.LogManager.Durable.{Durable, add, flush, run, records, run-Durable}
use aidv.Recovery.LogManager.Ahead.{interleaved, interleaved-is_persisted}
use aidv.Recovery.Analysis.Tables.{Distinct, Read, log-Read, Analysed, analyze-Analysed}

abbrev rid : Rid
rid = record { page_no = 1; slot_no = 0 }

-- A record of no user data, with the transaction 5 in its hidden fields and no link.
abbrev bytes : List ℕ
bytes =
    5 ∷ 0 ∷ 0 ∷ 0 ∷ 0 ∷ 0 ∷ 0 ∷ 0 ∷ 255 ∷ 255 ∷ 255 ∷ 255 ∷ 255 ∷ 255 ∷ 255 ∷ 255 ∷ 0 ∷ 0 ∷ 0 ∷ 0
    ∷ 0 ∷ 0 ∷ 0 ∷ 0 ∷ []

abbrev name : List ℕ
name = 116 ∷ []

abbrev began : LogRecord
began = stamp (begin_log_record 5) 0

abbrev inserted : LogRecord
inserted =
    let r = stamp (insert_log_record 5 bytes rid name) 1 in
    record r { header = record r.header { prev_lsn = 0 } }

began-RecordFits : RecordFits began
unfolding begin_log_record
began-RecordFits = record {
  header_fits = (omega arith, omega arith, omega arith, omega arith, omega arith);
  body_fits = omega arith;
}

inserted-RecordFits : RecordFits inserted
unfolding insert_log_record
inserted-RecordFits = record {
  header_fits = (omega arith, omega arith, omega arith, omega arith, omega arith);
  body_fits = (refl, omega arith, (omega arith, omega arith), omega arith);
}

abbrev log : List LogRecord
log = began ∷ inserted ∷ []

log-LogFits : LogFits log
unfolding begin_log_record insert_log_record record_bytes header_bytes body_bytes int_bytes
    long_bytes value_bytes place_bytes
log-LogFits = (began-RecordFits, refl, (inserted-RecordFits, refl, tt))

abbrev log_data : ℕ → ℕ
log_data = write_cells (λ _. 0) 0 (log_bytes log)

abbrev log_size : ℕ
log_size = length (log_bytes log)

deserialize-serialize_log_example : deserialize (serialize inserted (λ _. 0) 3) 3 ≡ inserted
deserialize-serialize_log_example =
    deserialize-serialize_log inserted (λ _. 0) 3 inserted-RecordFits

log-is_small : log_size < 2 ^ 31
unfolding begin_log_record insert_log_record record_bytes header_bytes body_bytes int_bytes
    long_bytes value_bytes place_bytes
log-is_small = omega arith

log-Distinct : Distinct (placed 0 log)
unfolding begin_log_record insert_log_record
log-Distinct = (refl, (refl, tt))

analyze-Analysed_example :
    (a : Analysis) × (analyze log_data log_size ≡ some (answers a))
    × Analysed log_data (placed 0 log) a
analyze-Analysed_example =
    analyze-Analysed log_data log_size log log-LogFits log-Distinct
      (write_cells-Holds (λ _. 0) 0 (log_bytes log)) log-is_small refl

abbrev blank_page : RmPage
blank_page = record {
  next_free_page_no = none;
  num_records = 0;
  bitmap = λ _. false;
  slots = λ _. unpack bytes;
}

abbrev file : RmFile
file = record {
  num_pages = 2;
  num_records_per_page = 3;
  first_free_page_no = some 1;
  pages = λ _. blank_page;
}

-- The table is open and its pages are new.
abbrev table : Table
table = record { file = file; page_lsn = λ _. 0 }

abbrev tables : Tables
tables name' = if same_bytes name name' then some table else none

redo-redo_example :
    (after : Tables) × (redo log_data log_size tables ≡ some (answers after))
    × (redo log_data log_size after ≡ some (answers after))
redo-redo_example =
    redo-redo log_data log_size log tables log-LogFits
      (write_cells-Holds (λ _. 0) 0 (log_bytes log)) log-is_small refl

abbrev no_contents : Contents
no_contents p s = none

-- The page was written back with the record on it.
abbrev written_table : Table
written_table = record {
  file = record file { pages = λ _. record blank_page { num_records = 1; bitmap = λ s. s == 0 } };
  page_lsn = λ _. 0;
}

redo_table-overcounts_example :
    (after : Table) × (redo_table 1 1 (LogBody.insert bytes rid name) written_table ≡ answers after)
    × Overcounted 1 written_table after
redo_table-overcounts_example =
    redo_table-overcounts 1 bytes rid name written_table (omega arith) refl refl

file-empty : found file 1 0 ≡ none
unfolding found get_record fetch_page_handle
file-empty = refl

bytes-belongs : belongs 5 (unpack bytes) ≡ true
unfolding unpack
bytes-belongs = refl

undo-apply_change_example : Restored file (
    apply_change (LogBody.insert bytes rid name) file
    >>= undo_on_file 5 (LogBody.insert bytes rid name))
undo-apply_change_example =
    undo-apply_change 5 (LogBody.insert bytes rid name) file (omega arith)
      (file-empty, bytes-belongs)

bytes-belongs_not : belongs 6 (unpack bytes) ≡ false
unfolding unpack
bytes-belongs_not = refl

undo_unowned_example : LeftThere (unpack bytes) rid (
    apply_change (LogBody.insert bytes rid name) file
    >>= undo_on_file 6 (LogBody.insert bytes rid name))
undo_unowned_example =
    undo_unowned 6 (LogBody.insert bytes rid name) file (unpack bytes) (omega arith) refl
      bytes-belongs_not

written-found : found written_table.file 1 0 ≡ some (unpack bytes)
unfolding found get_record fetch_page_handle
written-found = refl

undo_insert-undo_insert_example :
    (after : RmFile) × (undo_insert 5 rid written_table.file ≡ answers after)
    × (undo_insert 5 rid after ≡ fails record_not_found)
undo_insert-undo_insert_example =
    undo_insert-undo_insert 5 rid written_table.file (unpack bytes) (omega arith) written-found
      bytes-belongs

log-reads : Read log_data (placed 0 log)
log-reads = log-Read log_data 0 log log-LogFits (write_cells-Holds (λ _. 0) 0 (log_bytes log))

abbrev lsn_to_offset : List (ℕ × ℕ)
lsn_to_offset = (0, 0) ∷ (1, 24) ∷ []

began-prev_lsn : (deserialize log_data 0).header.prev_lsn ≡ invalid_lsn
unfolding begin_log_record
began-prev_lsn = ap (λ (r : LogRecord). r.header.prev_lsn) log-reads.0

inserted-prev_lsn : (deserialize log_data 24).header.prev_lsn ≡ 0
unfolding record_bytes header_bytes int_bytes long_bytes body_bytes begin_log_record
inserted-prev_lsn = ap (λ (r : LogRecord). r.header.prev_lsn) (log-reads.1.0)

log-Descending : Descending log_data lsn_to_offset
log-Descending lsn offset h = elim (Bool-cases (0 == lsn)) [
  | inl y ↦ let at : offset ≡ 0 = ground (arith, h, y) in rw at (inl began-prev_lsn)
  | inr n ↦ elim (Bool-cases (1 == lsn)) [
    | inl y ↦
        let at : offset ≡ 24 = ground (arith, h, n, y) in
        rw (at, inserted-prev_lsn) (inr (ground (arith, y)))
    | inr m ↦ absurd (ground (arith, h, n, m))
  ]
]

undo_txn-ends_example : undo_txn log_data lsn_to_offset 5 3 1 tables ≢ none
undo_txn-ends_example =
    undo_txn-ends log_data lsn_to_offset 5 3 1 tables log-Descending (inr (omega arith))
      (omega arith)

began-Sized : Sized began
unfolding begin_log_record record_bytes header_bytes body_bytes int_bytes long_bytes
began-Sized = record { whole = refl; fits = omega arith }

inserted-Sized : Sized inserted
unfolding insert_log_record record_bytes header_bytes body_bytes int_bytes long_bytes value_bytes
    place_bytes
inserted-Sized = record { whole = refl; fits = omega arith }

run-Durable_example :
    Durable []
      (records 0 (add began ∷ flush ∷ add inserted ∷ []))
      (run (add began ∷ flush ∷ add inserted ∷ []) (init []))
run-Durable_example =
    run-Durable [] (add began ∷ flush ∷ add inserted ∷ []) (began-Sized, (inserted-Sized, tt))

-- No byte of the buffer is free.
abbrev busy_manager : LogManager
busy_manager = record (init []) { offset = log_buffer_size; global_lsn = 9 }

busy-is_full : is_full busy_manager inserted.header.log_tot_len ≡ true
unfolding is_full insert_log_record
busy-is_full = refl

interleaved-is_persisted_example :
    (is_persisted 9 (interleaved inserted began busy_manager) ≡ true)
    × (buffered (interleaved inserted began busy_manager) ≡ record_bytes (stamp inserted 9))
    × ((interleaved inserted began busy_manager).log_file
        ≡ ([] ++ buffered busy_manager) ++ record_bytes (stamp began 10))
interleaved-is_persisted_example =
    interleaved-is_persisted inserted began busy_manager inserted-Sized began-Sized refl
      busy-is_full (omega arith)
