-- ===== src/Recovery/Redo/Changes.antt =====
-- What the redo of one record does to its table.
use aidv.Prelude.{
  ℕ, suc, ◌≤◌, ◌<◌, ◌≡◌, refl, true, false, Option, none, some, ◌==◌, arith, inl, inr, Bool-cases,
  Option-cases,
}
use aidv.Index.Node.{Rid}
use aidv.Record.{RmFile, RmRecord, Answer, answers, ◌>>=◌, clear_slot, found}
use aidv.Record.Changes.{
  Effect, is_record_lem, clear_slot-Effect, delete_record_lem, inserted_at, insert_record_at_lem,
  inserted_at-Effect, updated_at, update_record_lem, updated_at-Effect,
}
use aidv.Recovery.LogRecord.{LogBody, other}
use aidv.Recovery.Analysis.{later, rank}
use aidv.Recovery.Redo.{Table, unpack, ensure_pages, apply_change, put_lsn, redo_table}

-- The place that a change names.
abbrev pub rid_of : LogBody → Rid
rid_of other = record { page_no = 0; slot_no = 0 }
rid_of (LogBody.insert value rid name) = rid
rid_of (LogBody.delete value rid name) = rid
rid_of (LogBody.update old_value new_value rid name) = rid

-- What the place reads after the change: an update makes no record where there is none.
abbrev pub reading_after : LogBody → Option RmRecord → Option RmRecord
reading_after other reading = reading
reading_after (LogBody.insert value rid name) reading = some (unpack value)
reading_after (LogBody.delete value rid name) reading = none
reading_after (LogBody.update old_value new_value rid name) none = none
reading_after (LogBody.update old_value new_value rid name) (some rec) = some (unpack new_value)

unchanged-Effect :
    (file : RmFile) (rid : Rid) (reading : Option RmRecord)
    → found file rid.page_no rid.slot_no ≡ reading
    → Effect file rid reading file
unchanged-Effect file rid reading e = record {
  same_pages = refl;
  reads = e;
  others = λ q i n. refl;
  other_pages = λ q n. refl;
}

abbrev pub Applied : LogBody → RmFile → Answer RmFile → Type 0
Applied body file a =
    (after : RmFile) × (a ≡ answers after)
    × Effect file (rid_of body)
        (reading_after body (found file (rid_of body).page_no (rid_of body).slot_no)) after

pub apply_change-Applied :
    (body : LogBody) (file : RmFile)
    → (rid_of body).page_no < file.num_pages
    → Applied body file (apply_change body file)
unfolding apply_change
apply_change-Applied other file h =
    (file, refl, unchanged-Effect file (record { page_no = 0; slot_no = 0 }) _ refl)
apply_change-Applied (LogBody.insert value rid name) file h = (
  inserted_at file rid (unpack value),
  insert_record_at_lem file rid (unpack value) h,
  inserted_at-Effect file rid (unpack value) h,
)
apply_change-Applied (LogBody.delete value rid name) file h =
    elim (Option-cases (found file rid.page_no rid.slot_no)) [
      | inl e ↦
          (file, rw (is_record_lem file rid h, e, ◌>>=◌) refl, unchanged-Effect file rid none e)
      | inr (old, e) ↦ (
        clear_slot file rid.page_no rid.slot_no,
        rw (is_record_lem file rid h, e, ◌>>=◌) (delete_record_lem file rid old e),
        clear_slot-Effect file rid,
      )
    ]
apply_change-Applied (LogBody.update old_value new_value rid name) file h =
    elim (Option-cases (found file rid.page_no rid.slot_no)) [
      | inl e ↦ (
        file,
        rw (is_record_lem file rid h, e, ◌>>=◌) refl,
        rw e (unchanged-Effect file rid none e),
      )
      | inr (old, e) ↦ (
        updated_at file rid (unpack new_value),
        rw (is_record_lem file rid h, e, ◌>>=◌)
            (update_record_lem file rid (unpack new_value) old e),
        rw e (updated_at-Effect file rid (unpack new_value) old e),
      )
    ]

pub ensure_pages_lem :
    (file : RmFile) (target : ℕ)
    → (file.num_pages ≤ (ensure_pages file target).num_pages)
      × (target ≤ (ensure_pages file target).num_pages)
unfolding ensure_pages
ensure_pages_lem file target = (ground arith, ground arith)

pub ensure_pages-enough :
    (file : RmFile) (target : ℕ) → target ≤ file.num_pages → ensure_pages file target ≡ file
unfolding ensure_pages
ensure_pages-enough file target h = ground arith

-- The record counts as done on its page, and what counted so before still does.
pub record Redone (lsn page_no : ℕ) (table after : Table) : Type 0 where
  pub grown : table.file.num_pages ≤ after.file.num_pages
  pub there : page_no < after.file.num_pages
  pub raised : (p : ℕ) → rank (table.page_lsn p) ≤ rank (after.page_lsn p)
  pub covered : rank lsn ≤ rank (after.page_lsn page_no)

raised_lem :
    (page_lsn : ℕ → ℕ) (page_no lsn p : ℕ)
    → later lsn (page_lsn page_no) ≡ true
    → rank (page_lsn p) ≤ rank (put_lsn page_lsn page_no lsn p)
raised_lem page_lsn page_no lsn p h = elim (Bool-cases (page_no == p)) [
  | inl y ↦ rw y (ground (arith, y, h))
  | inr n ↦ rw n (omega arith)
]

own_lem : (page_lsn : ℕ → ℕ) (page_no lsn : ℕ) → put_lsn page_lsn page_no lsn page_no ≡ lsn
own_lem page_lsn page_no lsn = ground arith

pub redo_table-Redone :
    (lsn : ℕ) (body : LogBody) (table : Table)
    → (after : Table) × (redo_table lsn (rid_of body).page_no body table ≡ answers after)
      × Redone lsn (rid_of body).page_no table after
unfolding redo_table
redo_table-Redone lsn body table =
    let page_no = (rid_of body).page_no in
    let file = ensure_pages table.file (suc page_no) in
    let g = ensure_pages_lem table.file (suc page_no) in
    elim (Bool-cases (later lsn (table.page_lsn page_no))) [
      | inl y ↦
          let a = apply_change-Applied body file (omega (arith, g.1)) in
          (
            record { file = a.0; page_lsn = put_lsn table.page_lsn page_no lsn },
            rw y (rw (a.1, ◌>>=◌) refl),
            record {
              grown = omega (arith, g.0, a.2.same_pages);
              there = omega (arith, g.1, a.2.same_pages);
              raised = λ p. raised_lem table.page_lsn page_no lsn p y;
              covered = rw (own_lem table.page_lsn page_no lsn) (omega arith);
            },
          )
      | inr n ↦ (
        record table { file = file },
        rw n refl,
        record {
          grown = g.0;
          there = omega (arith, g.1);
          raised = λ p. omega arith;
          covered = ground (arith, n);
        },
      )
    ]

pub redo_table-covered :
    (lsn : ℕ) (body : LogBody) (table : Table)
    → (rid_of body).page_no < table.file.num_pages
    → rank lsn ≤ rank (table.page_lsn (rid_of body).page_no)
    → redo_table lsn (rid_of body).page_no body table ≡ answers table
unfolding redo_table
redo_table-covered lsn body table h c =
    let skip : later lsn (table.page_lsn (rid_of body).page_no) ≡ false = ground (arith, c) in
    rw (skip, ensure_pages-enough table.file (suc (rid_of body).page_no) h) refl
