-- ===== src/Recovery/Redo/Idempotence.antt =====
-- The redo of a log that has been redone.
use aidv.Prelude.{
  ℕ, suc, ◌^◌, ◌≤◌, ◌<◌, ◌≡◌, refl, none, some, List, arith, inl, inr, Bool-cases, Option-cases,
  sym, ap, subst, ◌∙◌, length, same_bytes, same_bytes_refl, same_bytes_eq,
}
use mathlib.Core.Path.{fun_ext}
use aidv.Prelude.Memory.{Holds}
use aidv.Record.{Answer, answers, ◌>>=◌}
use aidv.Recovery.LogRecord.{LogBody, LogRecord, other, deserialize}
use aidv.Recovery.Walk.{LogFits, log_bytes, length-log_bytes}
use aidv.Recovery.Walk.Again.{walk-ends, walk-again}
use aidv.Recovery.Analysis.{rank}
use aidv.Recovery.Redo.{Table, Tables, put_table, redo_in, redo_record, redo_at, redo}
use aidv.Recovery.Redo.Changes.{rid_of, redo_table-Redone, redo_table-covered}

some_eq : {a b : Table} → some a ≡ some b → a ≡ b
some_eq h = cc

none-some : {a : Table} → none ≡ some a → ⊥
none-some h = cc

pub put_table_self :
    (tables : Tables) (name : List ℕ) (table : Table)
    → put_table tables name table name ≡ some table
unfolding put_table
put_table_self tables name table = rw (same_bytes_refl name) refl

-- A table that is put where it stands changes nothing.
put_table_same :
    (tables : Tables) (name : List ℕ) (table : Table)
    → tables name ≡ some table
    → put_table tables name table ≡ tables
unfolding put_table
put_table_same tables name table e = fun_ext (λ name'. elim (Bool-cases (same_bytes name name')) [
  | inl y ↦ rw y (sym e ∙ ap tables (same_bytes_eq name name' y))
  | inr n ↦ rw n refl
])

-- The record of the change counts as done in its table, if the table is open.
abbrev pub Covered : ℕ → ℕ → List ℕ → Tables → Type 0
Covered lsn page_no name tables =
    (table : Table)
    → tables name ≡ some table
    → (page_no < table.file.num_pages) × (rank lsn ≤ rank (table.page_lsn page_no))

Covered-put :
    (lsn page_no : ℕ) (name : List ℕ) (tables : Tables) (name' : List ℕ) (table after : Table)
    → tables name' ≡ some table
    → table.file.num_pages ≤ after.file.num_pages
    → ((p : ℕ) → rank (table.page_lsn p) ≤ rank (after.page_lsn p))
    → Covered lsn page_no name tables
    → Covered lsn page_no name (put_table tables name' after)
unfolding put_table
Covered-put lsn page_no name tables name' table after e grown raised c t h =
    elim (Bool-cases (same_bytes name' name)) [
      | inl y ↦
          let same : after ≡ t = some_eq (rw y at h) in
          let old = c table (ap tables (sym (same_bytes_eq name' name y)) ∙ e) in
          subst
            (λ (u : Table). (page_no < u.file.num_pages) × (rank lsn ≤ rank (u.page_lsn page_no)))
            same (omega arith, omega (arith, raised page_no))
      | inr n ↦ c t (rw n at h)
    ]

-- The redo of a record answers, counts as done afterwards, and takes nothing back.
abbrev pub Answers : ℕ → ℕ → List ℕ → Tables → Answer Tables → Type 0
Answers lsn page_no name tables a =
    (after : Tables) × (a ≡ answers after)
    × Covered lsn page_no name after
    × ((lsn' page_no' : ℕ) (name' : List ℕ)
        → Covered lsn' page_no' name' tables
        → Covered lsn' page_no' name' after)

redo_in-Answers :
    (lsn : ℕ) (name : List ℕ) (body : LogBody) (tables : Tables)
    → Answers lsn
        (rid_of body).page_no
        name
        tables
        (redo_in lsn (rid_of body).page_no name body tables)
unfolding redo_in
redo_in-Answers lsn name body tables = elim (Option-cases (tables name)) [
  | inl e ↦ (
    tables,
    rw (e, redo_in) refl,
    λ table h. absurd (none-some (sym e ∙ h)),
    λ lsn' page_no' name' c. c,
  )
  | inr (table, e) ↦
      let r = redo_table-Redone lsn body table in
      (
        put_table tables name r.0,
        rw (e, redo_in) (rw (r.1, ◌>>=◌) refl),
        λ t h.
            subst
              (λ (u : Table).
                ((rid_of body).page_no < u.file.num_pages)
                × (rank lsn ≤ rank (u.page_lsn (rid_of body).page_no)))
              (some_eq (sym (put_table_self tables name r.0) ∙ h)) (r.2.there, r.2.covered),
        λ lsn' page_no' name' c.
            Covered-put lsn' page_no' name' tables name table r.0 e r.2.grown r.2.raised c,
      )
]

redo_in-Covered :
    (lsn : ℕ) (name : List ℕ) (body : LogBody) (tables : Tables)
    → Covered lsn (rid_of body).page_no name tables
    → redo_in lsn (rid_of body).page_no name body tables ≡ answers tables
unfolding redo_in
redo_in-Covered lsn name body tables c = elim (Option-cases (tables name)) [
  | inl e ↦ rw (e, redo_in) refl
  | inr (table, e) ↦
      let k = c table e in
      rw (e, redo_in)
        (rw (redo_table-covered lsn body table k.0 k.1, ◌>>=◌)
          (ap answers (put_table_same tables name table e)))
]

-- The record counts as done.
abbrev pub Done : ℕ → LogBody → Tables → Type 0
Done lsn other tables = Unit
Done lsn (LogBody.insert value rid name) tables = Covered lsn rid.page_no name tables
Done lsn (LogBody.delete value rid name) tables = Covered lsn rid.page_no name tables
Done lsn (LogBody.update old_value new_value rid name) tables = Covered lsn rid.page_no name tables

kept :
    (tables after : Tables)
    → ((lsn page_no : ℕ) (name : List ℕ)
        → Covered lsn page_no name tables
        → Covered lsn page_no name after)
    → (lsn : ℕ) (body : LogBody) → Done lsn body tables
    → Done lsn body after
kept tables after k lsn other d = tt
kept tables after k lsn (LogBody.insert value rid name) d = k lsn rid.page_no name d
kept tables after k lsn (LogBody.delete value rid name) d = k lsn rid.page_no name d
kept tables after k lsn (LogBody.update old_value new_value rid name) d = k lsn rid.page_no name d

redo_record-answers :
    (lsn : ℕ) (body : LogBody) (tables : Tables)
    → (after : Tables) × (redo_record lsn body tables ≡ answers after)
      × Done lsn body after
      × ((lsn' : ℕ) (body' : LogBody) → Done lsn' body' tables → Done lsn' body' after)
unfolding redo_record
redo_record-answers lsn other tables = (tables, refl, tt, λ lsn' body' d. d)
redo_record-answers lsn (LogBody.insert value rid name) tables =
    let r = redo_in-Answers lsn name (LogBody.insert value rid name) tables in
    (r.0, r.1, r.2, kept tables r.0 r.3)
redo_record-answers lsn (LogBody.delete value rid name) tables =
    let r = redo_in-Answers lsn name (LogBody.delete value rid name) tables in
    (r.0, r.1, r.2, kept tables r.0 r.3)
redo_record-answers lsn (LogBody.update old_value new_value rid name) tables =
    let r = redo_in-Answers lsn name (LogBody.update old_value new_value rid name) tables in
    (r.0, r.1, r.2, kept tables r.0 r.3)

redo_record-Done :
    (lsn : ℕ) (body : LogBody) (tables : Tables)
    → Done lsn body tables
    → redo_record lsn body tables ≡ answers tables
unfolding redo_record
redo_record-Done lsn other tables d = refl
redo_record-Done lsn (LogBody.insert value rid name) tables d =
    redo_in-Covered lsn name (LogBody.insert value rid name) tables d
redo_record-Done lsn (LogBody.delete value rid name) tables d =
    redo_in-Covered lsn name (LogBody.delete value rid name) tables d
redo_record-Done lsn (LogBody.update old_value new_value rid name) tables d =
    redo_in-Covered lsn name (LogBody.update old_value new_value rid name) tables d

redo_at-Does :
    (log_data : ℕ → ℕ) (offset : ℕ) (tables : Tables)
    → (after : Tables) × (redo_at log_data offset tables ≡ answers after)
      × Done (deserialize log_data offset).header.lsn (deserialize log_data offset).body after
      × ((p : ℕ)
          → Done (deserialize log_data p).header.lsn (deserialize log_data p).body tables
          → Done (deserialize log_data p).header.lsn (deserialize log_data p).body after)
unfolding redo_at
redo_at-Does log_data offset tables =
    let r = deserialize log_data offset in
    let d = redo_record-answers r.header.lsn r.body tables in
    (d.0, d.1, d.2, λ p. d.3 (deserialize log_data p).header.lsn (deserialize log_data p).body)

redo_at-fixed :
    (log_data : ℕ → ℕ) (offset : ℕ) (tables : Tables)
    → Done (deserialize log_data offset).header.lsn (deserialize log_data offset).body tables
    → redo_at log_data offset tables ≡ answers tables
unfolding redo_at
redo_at-fixed log_data offset tables d =
    redo_record-Done (deserialize log_data offset).header.lsn (deserialize log_data offset).body
      tables d

-- The redo of a log that was written whole, of less than 2^31 bytes, ends without an exception,
-- whatever the tables hold. A second redo of the same log then changes nothing.
pub redo-redo :
    (log_data : ℕ → ℕ) (log_size : ℕ) (rs : List LogRecord) (tables : Tables)
    → LogFits rs
    → Holds log_data 0 (log_bytes rs)
    → log_size < 2 ^ 31
    → log_size ≡ length (log_bytes rs)
    → (after : Tables) × (redo log_data log_size tables ≡ some (answers after))
      × (redo log_data log_size after ≡ some (answers after))
unfolding redo
redo-redo log_data log_size rs tables f h b e =
    let r =
      walk-ends log_data log_size (redo_at log_data)
        (λ p t. Done (deserialize log_data p).header.lsn (deserialize log_data p).body t)
        (redo_at-Does log_data) (redo_at-fixed log_data) (suc log_size) 0 rs tables f h b
        (omega arith) (omega (arith, length-log_bytes rs)) in
    (
      r.0,
      r.1,
      walk-again log_data log_size (redo_at log_data)
          (λ p t. Done (deserialize log_data p).header.lsn (deserialize log_data p).body t)
          (redo_at-Does log_data) (redo_at-fixed log_data) (suc log_size) 0 tables r.0 r.1,
    )
