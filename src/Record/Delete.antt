-- ===== src/Record/Delete.antt =====
-- What `delete_record` of RmFileHandle does to the records of the file.
use aidv.Prelude.{
  ℕ, suc, ◌-◌, ◌≤◌, ◌<◌, ◌≡◌, refl, Bool, true, false, ◌&&◌, Option, none, some, List, [], ◌∷◌,
  arith, ◌==◌, ltb, inl, inr, Bool-cases,
}
use aidv.Record.{
  RmPage, RmFile, RmRecord, answers, put_page, set_bit, found, fetch_page_handle, clear_slot,
  delete_record,
}
use aidv.Record.Bits.{count_bits, count_bits-reset, count_bits_le}
use aidv.Record.Chain.{Chained, Linked, push-Linked}
use aidv.Record.Insert.{found_lem}

-- A page that keeps its link leaves the chain as it is.
keep-Linked :
    (pages : ℕ → RmPage) (p : ℕ) (page : RmPage) (first : Option ℕ) (ps : List ℕ)
    → page.next_free_page_no ≡ (pages p).next_free_page_no
    → Linked pages first ps
    → Linked (put_page pages p page) first ps
keep-Linked pages p page first [] h l = l
keep-Linked pages p page first (q ∷ ps) h l =
    let next : (put_page pages p page q).next_free_page_no ≡ (pages q).next_free_page_no =
      ground (arith, h) in
    (l.0, rw (next) (keep-Linked pages p page (pages q).next_free_page_no ps h l.1))

-- The place is empty, and no other place reads otherwise.
pub record Removed (file : RmFile) (p s : ℕ) (after : RmFile) : Type 0 where
  pub gone : found after p s ≡ none
  pub others : (q i : ℕ) → ((q == p) && (i == s)) ≡ false → found after q i ≡ found file q i
  pub free_after : List ℕ
  pub keeps : Chained after free_after none

module _ (file : RmFile) (p s : ℕ) (free : List ℕ) (v : Chained file free none) (positive : 0 < p)
    (known : p < file.num_pages) (in_range : s < file.num_records_per_page)
    (present : (file.pages p).bitmap s ≡ true) where
  abbrev bits_after : ℕ
  bits_after = count_bits (set_bit (file.pages p).bitmap s false) file.num_records_per_page

  one_less : suc bits_after ≡ (file.pages p).num_records
  one_less = ground (
    arith,
    count_bits-reset (file.pages p).bitmap s file.num_records_per_page in_range present,
    v.counted p positive known,
  )

  at_most : (file.pages p).num_records ≤ file.num_records_per_page
  at_most = ground (
    arith,
    count_bits_le (file.pages p).bitmap file.num_records_per_page,
    v.counted p positive known,
  )

  abbrev was_full : Bool
  was_full = (file.pages p).num_records - 1 == file.num_records_per_page - 1

  clear_slot-Removed : Removed file p s (clear_slot file p s)
  unfolding clear_slot
  clear_slot-Removed = elim (Bool-cases was_full) [
    | inl y ↦ rw (y) (record {
      gone = rw (found_lem _ p s) (ground arith);
      others = λ q i h. rw (found_lem _ q i, found_lem file q i) (ground arith);
      free_after = p ∷ free;
      keeps = record {
        counted = λ q a b. ground (arith, one_less, v.counted q);
        linked =
            push-Linked file.pages p _ free (ground (arith, y, v.roomy p, one_less, at_most))
              v.linked;
        roomy = λ q h. ground (arith, v.roomy q, positive, known, one_less, at_most);
        once = (ground (arith, y, v.roomy p, one_less, at_most), v.once);
        listed = λ q a b c n. ground (arith, v.listed q);
      };
    })
    | inr n ↦ rw (n) (record {
      gone = rw (found_lem _ p s) (ground arith);
      others = λ q i h. rw (found_lem _ q i, found_lem file q i) (ground arith);
      free_after = free;
      keeps = record {
        counted = λ q a b. ground (arith, one_less, v.counted q);
        linked = keep-Linked file.pages p _ file.first_free_page_no free refl v.linked;
        roomy = λ q h. ground (arith, v.roomy q, one_less);
        once = v.once;
        listed = λ q a b c m.
            ground (arith, v.listed q, v.listed p, n, one_less, at_most, positive, known);
      };
    })
  ]

-- `delete_record` of a record that is found, on a data page of a file whose chain is right, answers
-- a file in which no record is found at that place, all other places read as before, and the chain
-- is right again.
pub delete_record-Removed :
    (file : RmFile) (free : List ℕ) (p s : ℕ) (rec : RmRecord)
    → Chained file free none
    → 0 < p
    → s < file.num_records_per_page
    → found file p s ≡ some rec
    → (delete_record file (record { page_no = p; slot_no = s }) ≡ answers (clear_slot file p s))
      × Removed file p s (clear_slot file p s)
unfolding delete_record fetch_page_handle
delete_record-Removed file free p s rec v positive r e =
    let known : p < file.num_pages = ground (arith, found_lem file p s, e) in
    let present : (file.pages p).bitmap s ≡ true = ground (arith, found_lem file p s, e) in
    let inside : ltb p file.num_pages ≡ true = ground (arith, known) in
    (
      simp (delete_record, fetch_page_handle, inside, present),
      clear_slot-Removed file p s free v positive known r present,
    )
