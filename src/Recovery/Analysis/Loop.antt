-- ===== src/Recovery/Analysis/Loop.antt =====
-- The loop of `analyze` over a whole log.
use aidv.Prelude.{ℕ, suc, ◌+◌, ◌^◌, ◌<◌, ◌≡◌, refl, some, List, [], ◌∷◌, length, arith, ap, ◌∙◌}
use aidv.Prelude.Memory.{Holds}
use aidv.Record.{answers}
use aidv.Recovery.LogRecord.{
  LogRecord, LogBody, other, rid_at, record_bytes, body_bytes, offset_log_data,
}
use aidv.Recovery.LogRecord.RoundTrip.{RecordFits, BodyFits}
use aidv.Recovery.LogRecord.Fields.{header_fields, body_Holds, change_fields, update_fields}
use aidv.Recovery.Walk.{
  walk-fold_records, fold_records, placed, LogFits, log_bytes, length-log_bytes,
}
use aidv.Recovery.Analysis.{Analysis, cleared, switch, note, rid_offset_at, analyze_at, analyze}

-- The page of a change.
abbrev pub page_of : LogBody → ℕ
page_of other = 0
page_of (LogBody.insert value rid name) = rid.page_no
page_of (LogBody.delete value rid name) = rid.page_no
page_of (LogBody.update old_value new_value rid name) = rid.page_no

-- The analysis of a record, without its bytes.
abbrev pub note_record : ℕ → LogRecord → Analysis → Analysis
note_record offset r a =
    note offset r.header.log_type r.header.lsn r.header.log_tid (page_of r.body) a

switch-other :
    (log_type lsn log_tid p q : ℕ) (a : Analysis)
    → 2 < log_type
    → switch log_type lsn log_tid p a ≡ switch log_type lsn log_tid q a
unfolding switch
switch-other log_type lsn log_tid p q a h = ground arith

note_page :
    (buffer : ℕ → ℕ) (i log_type lsn log_tid : ℕ) (body : LogBody) (a : Analysis)
    → BodyFits log_type body
    → Holds buffer (i + offset_log_data) (body_bytes body)
    → note i log_type lsn log_tid (rid_at buffer (i + rid_offset_at buffer i log_type)).page_no a
      ≡ note i log_type lsn log_tid (page_of body) a
unfolding note rid_offset_at body_bytes
note_page buffer i log_type lsn log_tid other a f h = switch-other log_type lsn log_tid _ _ _ f
note_page buffer i log_type lsn log_tid (LogBody.insert value rid name) a f h =
    let c = change_fields buffer i value rid name f.1 f.2 f.3 h in rw (f.0, c.0, c.1) refl
note_page buffer i log_type lsn log_tid (LogBody.delete value rid name) a f h =
    let c = change_fields buffer i value rid name f.1 f.2 f.3 h in rw (f.0, c.0, c.1) refl
note_page buffer i log_type lsn log_tid (LogBody.update old_value new_value rid name) a f h =
    let c = update_fields buffer i old_value new_value rid name f.1 f.2 f.3 f.4 h in
    rw (f.0, c.0, c.1, c.2) refl

pub analyze_at-record :
    (buffer : ℕ → ℕ) (offset : ℕ) (r : LogRecord) (a : Analysis)
    → RecordFits r
    → Holds buffer offset (record_bytes r)
    → analyze_at buffer offset a ≡ answers (note_record offset r a)
unfolding analyze_at
analyze_at-record buffer offset r a f h =
    let d = header_fields buffer offset r f h in
    rw (d.0, d.1, d.2)
      (ap answers (
        note_page buffer offset r.header.log_type r.header.lsn r.header.log_tid r.body a f.body_fits
          (body_Holds buffer offset r f h)))

unfoldable pub note_all : List (ℕ × LogRecord) → Analysis → Analysis
note_all [] a = a
note_all ((offset, r) ∷ rs) a = note_all rs (note_record offset r a)

note_all-fold_records :
    (rs : List (ℕ × LogRecord)) (a : Analysis)
    → fold_records (λ offset r b. answers (note_record offset r b)) rs a ≡ answers (note_all rs a)
unfolding note_all
note_all-fold_records [] a = refl
note_all-fold_records ((offset, r) ∷ rs) a = note_all-fold_records rs (note_record offset r a)

-- The loop ends, having taken every record of a whole log once.
pub analyze-note_all :
    (log_data : ℕ → ℕ) (log_size : ℕ) (rs : List LogRecord)
    → LogFits rs
    → Holds log_data 0 (log_bytes rs)
    → log_size < 2 ^ 31
    → log_size ≡ length (log_bytes rs)
    → analyze log_data log_size ≡ some (answers (note_all (placed 0 rs) cleared))
unfolding analyze
analyze-note_all log_data log_size rs f h b e =
    walk-fold_records log_data log_size (analyze_at log_data)
      (λ offset r a. answers (note_record offset r a)) (analyze_at-record log_data) (suc log_size) 0
      rs cleared f h b (omega arith) (omega (arith, length-log_bytes rs))
    ∙ ap some (note_all-fold_records (placed 0 rs) cleared)
