-- ===== src/Recovery/Redo/Overcount.antt =====
-- The redo of an insertion on a page that was written back with the record on it.
use aidv.Prelude.{ℕ, suc, ◌<◌, ◌≡◌, refl, true, List, arith}
use aidv.Index.Node.{Rid}
use aidv.Record.{answers, ◌>>=◌}
use aidv.Record.Changes.{inserted_at, insert_record_at_lem}
use aidv.Recovery.LogRecord.{LogBody}
use aidv.Recovery.Analysis.{later}
use aidv.Recovery.Redo.{Table, ensure_pages, unpack, apply_change, put_lsn, redo_table}

-- The page has counted one record more, and its bits are the same.
pub record Overcounted (page_no : ℕ) (table after : Table) : Type 0 where
  pub one_more : (after.file.pages page_no).num_records ≡ suc (table.file.pages page_no).num_records
  pub same_bits :
      (s : ℕ) → (after.file.pages page_no).bitmap s ≡ (table.file.pages page_no).bitmap s

ensure_pages-same :
    (table : Table) (page_no : ℕ)
    → page_no < table.file.num_pages
    → ensure_pages table.file (suc page_no) ≡ table.file
unfolding ensure_pages
ensure_pages-same table page_no h = ground (arith, h)

-- If the page of an insertion has the record's slot in use, and the page's lsn is below the log
-- record's, then the redo counts the record again: the page has one record more than before and
-- the same slots in use.
pub redo_table-overcounts :
    (lsn : ℕ) (value : List ℕ) (rid : Rid) (name : List ℕ) (table : Table)
    → rid.page_no < table.file.num_pages
    → (table.file.pages rid.page_no).bitmap rid.slot_no ≡ true
    → later lsn (table.page_lsn rid.page_no) ≡ true
    → (after : Table) × (redo_table lsn rid.page_no (LogBody.insert value rid name) table
        ≡ answers after)
      × Overcounted rid.page_no table after
unfolding redo_table apply_change
redo_table-overcounts lsn value rid name table h used go =
    let file' = inserted_at table.file rid (unpack value) in
    (
      record { file = file'; page_lsn = put_lsn table.page_lsn rid.page_no lsn },
      rw (ensure_pages-same table rid.page_no h, go)
          (rw (insert_record_at_lem table.file rid (unpack value) h, ◌>>=◌) refl),
      record { one_more = ground arith; same_bits = λ s. ground (arith, used) },
    )
