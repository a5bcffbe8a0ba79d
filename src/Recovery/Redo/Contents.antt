-- ===== src/Recovery/Redo/Contents.antt =====
-- The contents of a table, and what the redo of one record makes of them.
use aidv.Prelude.{
  ℕ, suc, ◌≤◌, ◌<◌, ◌≡◌, refl, true, false, ◌&&◌, Option, ltb, ◌==◌, if◌then◌else◌, arith, inl, inr,
  Bool-cases, ap, ◌∙◌,
}
use aidv.Index.Node.{Rid}
use aidv.Record.{RmFile, RmRecord, answers, ◌>>=◌, found}
use aidv.Record.Insert.{found_lem}
use aidv.Record.Changes.{Effect}
use aidv.Recovery.LogRecord.{LogBody}
use aidv.Recovery.Analysis.{later, rank}
use aidv.Recovery.Redo.{Table, put_lsn, ensure_pages, redo_table}
use aidv.Recovery.Redo.Changes.{rid_of, reading_after, apply_change-Applied, ensure_pages_lem}

-- What a table has at each place.
abbrev pub Contents : Type 0
Contents = ℕ → ℕ → Option RmRecord

abbrev pub contents : Table → Contents
contents table p s = found table.file p s

-- The change on the contents.
abbrev pub change : LogBody → Contents → Contents
change body c p s =
    if (p == (rid_of body).page_no) && (s == (rid_of body).slot_no)
    then reading_after body (c (rid_of body).page_no (rid_of body).slot_no)
    else c p s

-- The pages that the file does not have yet are blank.
abbrev pub Blank : RmFile → Type 0
Blank file = (p s : ℕ) → file.num_pages ≤ p → (file.pages p).bitmap s ≡ false

ensure_pages-found :
    (file : RmFile) (target p s : ℕ)
    → Blank file
    → found (ensure_pages file target) p s ≡ found file p s
unfolding ensure_pages
ensure_pages-found file target p s b = elim (Bool-cases (ltb file.num_pages target)) [
  | inr n ↦ rw n refl
  | inl y ↦ rw y (
      rw (found_lem (record file { num_pages = target }) p s, found_lem file p s)
        (ground (arith, b p s)))
]

ensure_pages-Blank : (file : RmFile) (target : ℕ) → Blank file → Blank (ensure_pages file target)
unfolding ensure_pages
ensure_pages-Blank file target b p s h = ground (arith, b p s, h)

-- A redo that is not skipped makes the change.
pub record Replayed (lsn : ℕ) (body : LogBody) (table after : Table) : Type 0 where
  pub same : (p s : ℕ) → contents after p s ≡ change body (contents table) p s
  pub blank : Blank after.file
  pub lsns : (p : ℕ) → rank (after.page_lsn p) ≤ rank lsn

Effect-change :
    (body : LogBody) (base file after : RmFile)
    → ((p s : ℕ) → found file p s ≡ found base p s)
    → Effect file
        (rid_of body)
        (reading_after body (found file (rid_of body).page_no (rid_of body).slot_no))
        after
    → (p s : ℕ) → found after p s ≡ change body (found base) p s
Effect-change body base file after f e p s =
    let rid = rid_of body in
    elim (Bool-cases ((p == rid.page_no) && (s == rid.slot_no))) [
      | inl y ↦
          let same_page : p ≡ rid.page_no = ground (arith, y) in
          let same_slot : s ≡ rid.slot_no = ground (arith, y) in
          rw y (
            ap (found after p) same_slot
            ∙ (ap (λ (q : ℕ). found after q rid.slot_no) same_page
                ∙ (e.reads ∙ ap (reading_after body) (f rid.page_no rid.slot_no))))
      | inr n ↦ rw n (e.others p s n ∙ f p s)
    ]

Effect-Blank :
    (rid : Rid) (file after : RmFile) {reading : Option RmRecord}
    → rid.page_no < file.num_pages
    → Blank file
    → Effect file rid reading after
    → Blank after
Effect-Blank rid file after h b e p s k =
    let above : file.num_pages ≤ p = omega (arith, e.same_pages) in
    let apart : (rid.page_no == p) ≡ false = ground (arith, above) in
    rw (e.other_pages p apart) (b p s above)

put_lsn_le :
    (page_lsn : ℕ → ℕ) (page_no lsn p : ℕ)
    → rank (page_lsn p) < rank lsn
    → rank (put_lsn page_lsn page_no lsn p) ≤ rank lsn
put_lsn_le page_lsn page_no lsn p h = elim (Bool-cases (page_no == p)) [
  | inl y ↦ rw y (omega arith)
  | inr n ↦ rw n (omega arith)
]

pub redo_table-Replayed :
    (lsn : ℕ) (body : LogBody) (table : Table)
    → Blank table.file
    → ((p : ℕ) → rank (table.page_lsn p) < rank lsn)
    → (after : Table) × (redo_table lsn (rid_of body).page_no body table ≡ answers after)
      × Replayed lsn body table after
unfolding redo_table
redo_table-Replayed lsn body table b h =
    let rid = rid_of body in
    let file = ensure_pages table.file (suc rid.page_no) in
    let g = ensure_pages_lem table.file (suc rid.page_no) in
    let go : later lsn (table.page_lsn rid.page_no) ≡ true = ground (arith, h rid.page_no) in
    let a = apply_change-Applied body file (omega (arith, g.1)) in
    let f = λ (p s : ℕ). ensure_pages-found table.file (suc rid.page_no) p s b in
    (
      record { file = a.0; page_lsn = put_lsn table.page_lsn rid.page_no lsn },
      rw go (rw (a.1, ◌>>=◌) refl),
      record {
        same = Effect-change body table.file file a.0 f a.2;
        blank =
            Effect-Blank rid file a.0 (omega (arith, g.1))
              (ensure_pages-Blank table.file (suc rid.page_no) b) a.2;
        lsns = λ p. put_lsn_le table.page_lsn rid.page_no lsn p (h p);
      },
    )
