-- ===== src/Record/Scan.antt =====
-- `RmScan` of rmdb/src/record/rm_scan.{h,cpp}.
use aidv.Prelude.{
  ℕ, zero, suc, ◌+◌, ◌-◌, ◌≤◌, ◌<◌, ◌≡◌, Bool, true, false, ◌&&◌, ◌||◌, none, some, arith, ◌==◌,
  ltb, leb, if◌then◌else◌, inl, inr, Bool-cases, eq-or-ne, sym,
}
use aidv.Index.Node.{Rid}
use aidv.Record.{RmFile, next_bit, found}
use aidv.Record.Bits.{next_bit-found, next_bit-skipped}
use aidv.Record.Insert.{found_lem}

-- The loop of `RmScan::next`, over `left` pages from the page `page_no`; `first` is the slot after
-- `rid_.slot_no`.
unfoldable pub seek : RmFile → ℕ → ℕ → ℕ → Rid
seek file zero page_no first = record { page_no = file.num_pages; slot_no = 0 }
seek file (suc left) page_no first =
    let slot_no = next_bit true (file.pages page_no).bitmap file.num_records_per_page first in
    let rest = seek file left (suc page_no) 0 in
    if ltb slot_no file.num_records_per_page
    then record { page_no = page_no; slot_no = slot_no }
    else rest

-- The constructor.
pub scan_begin : RmFile → Rid
scan_begin file = seek file (file.num_pages - 1) 1 0

unfoldable pub next : RmFile → Rid → Rid
next file rid = seek file (file.num_pages - rid.page_no) rid.page_no (suc rid.slot_no)

abbrev pub is_end : RmFile → Rid → Bool
is_end file rid = leb file.num_pages rid.page_no

-- The order of the places in a file.
abbrev pub before : ℕ → ℕ → ℕ → ℕ → Bool
before p i q j = ltb p q || (p == q && ltb i j)

-- The scan goes to a record that is not before the place, and there is none in between.
pub record Sought (file : RmFile) (p first : ℕ) (r : Rid) : Type 0 where
  pub reads :
      is_end file r ≡ false
      → (before r.page_no r.slot_no p first ≡ false)
        × (found file r.page_no r.slot_no ≡ some ((file.pages r.page_no).slots r.slot_no))
  pub skipped :
      (q s : ℕ)
      → s < file.num_records_per_page
      → before q s p first ≡ false
      → before q s r.page_no r.slot_no ≡ true
      → found file q s ≡ none

seek-Sought :
    (file : RmFile) (left p first : ℕ)
    → file.num_pages ≡ p + left
    → Sought file p first (seek file left p first)
unfolding seek
seek-Sought file zero p first e = record {
  reads = λ h. absurd (ground (arith, h));
  skipped = λ q s k a b. absurd (ground (arith, a, b));
}
seek-Sought file (suc left) p first e =
    elim (Bool-cases (
      ltb (next_bit true (file.pages p).bitmap file.num_records_per_page first)
        file.num_records_per_page)) [
          | inl y ↦
              let f =
                next_bit-found (file.pages p).bitmap true file.num_records_per_page first
                  (ground (arith, y)) in
              rw (y) (record {
                reads = λ h. (ground (arith, f), rw (found_lem file p _) (ground (arith, f)));
                skipped = λ q s k a b. rw (found_lem file q s) (
                    ground (
                      arith,
                      next_bit-skipped (file.pages p).bitmap true file.num_records_per_page first s,
                    ));
              })
          | inr n ↦
              let r = seek-Sought file left (suc p) 0 (omega arith) in
              rw (n) (record {
                reads = λ h. (ground (arith, r.reads h), (r.reads h).1);
                skipped = λ q s k a b. elim (eq-or-ne p q) [
                  | inl o ↦
                      let here : (file.pages p).bitmap s ≡ false = ground (
                        arith,
                        n,
                        next_bit-skipped (file.pages p).bitmap true file.num_records_per_page first
                            s,
                        o,
                        a,
                      ) in
                      rw (sym o, found_lem file p s) (ground (arith, here))
                  | inr ne ↦ r.skipped q s k (ground (arith, ne, a)) b
                ];
              })
        ]

-- In a file with its header page, `next` of a scan whose page number is at most the number of pages
-- goes on to the least place: it is then at its end, or at a place after the one before, where a
-- record is found; and no record is found at a slot in range in between. The start of a scan goes in
-- the same way to the least place from slot 0 of page 1 on.
pub next-Sought :
    (file : RmFile) (rid : Rid)
    → 1 ≤ file.num_pages
    → rid.page_no ≤ file.num_pages
    → Sought file rid.page_no (suc rid.slot_no) (next file rid) × Sought file 1 0 (scan_begin file)
unfolding next scan_begin
next-Sought file rid h k = (
  seek-Sought file (file.num_pages - rid.page_no) rid.page_no (suc rid.slot_no) (omega arith),
  seek-Sought file (file.num_pages - 1) 1 0 (omega arith),
)
