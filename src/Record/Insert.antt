-- ===== src/Record/Insert.antt =====
-- What `insert_record` of RmFileHandle does to the records of the file.
use aidv.Prelude.{
  ℕ, suc, ◌<◌, ◌≡◌, refl, subst, true, false, ◌&&◌, Option, none, some, List, [], ◌∷◌, arith, ◌==◌,
  ltb, if◌then◌else◌, inl, inr, Bool-cases,
}
use aidv.Index.Node.{Rid}
use aidv.Record.{
  RmFile, RmRecord, first_bit, no_link, Answer, answers, fails, record_not_found, page_not_exist,
  found, get_record, fetch_page_handle, fill_slot, insert_record, create_page_handle,
  create_new_page_handle,
}
use aidv.Record.Bits.{first_bit-free}
use aidv.Record.Chain.{Chained, Taken, chain_after, fill_slot-Chained, recycled-Taken, new-Taken}

pub fetch_page_handle_lem :
    (file : RmFile) (p : ℕ)
    → ltb p file.num_pages ≡ true
    → fetch_page_handle file p ≡ answers (file.pages p)
unfolding fetch_page_handle
fetch_page_handle_lem file p y = rw (y) refl

pub get_record_lem :
    (file : RmFile) (rid : Rid)
    → get_record file rid ≡ (
        if ltb rid.page_no file.num_pages
        then (if (file.pages rid.page_no).bitmap rid.slot_no
            then answers ((file.pages rid.page_no).slots rid.slot_no)
            else fails record_not_found)
        else fails page_not_exist)
unfolding get_record fetch_page_handle
get_record_lem file rid = elim (Bool-cases (ltb rid.page_no file.num_pages)) [
  | inl y ↦ simp (y, get_record, fetch_page_handle_lem file rid.page_no y)
  | inr n ↦ simp (n, get_record, fetch_page_handle)
]

pub found_lem :
    (file : RmFile) (p s : ℕ)
    → found file p s ≡ (
        if ltb p file.num_pages
        then (if (file.pages p).bitmap s then some ((file.pages p).slots s) else none)
        else none)
unfolding found
found_lem file p s =
    rw (get_record_lem file (record { page_no = p; slot_no = s }))
      (elim (Bool-cases (ltb p file.num_pages)) [
        | inr n ↦ rw (n) refl
        | inl y ↦ elim (Bool-cases ((file.pages p).bitmap s)) [
          | inl b ↦ rw (y, b) refl
          | inr b ↦ rw (y, b) refl
        ]
      ])

-- The record is at a place that was empty, and no other place reads otherwise.
pub record Inserted (file : RmFile) (p s : ℕ) (rec : RmRecord) (after : RmFile) : Type 0 where
  pub in_range : s < file.num_records_per_page
  pub empty : found file p s ≡ none
  pub reads : found after p s ≡ some rec
  pub others : (q i : ℕ) → ((q == p) && (i == s)) ≡ false → found after q i ≡ found file q i

fill_slot-Inserted :
    (file : RmFile) (p s : ℕ) (rec : RmRecord)
    → p < file.num_pages
    → s < file.num_records_per_page
    → (file.pages p).bitmap s ≡ false
    → Inserted file p s rec (fill_slot file p s rec)
unfolding fill_slot
fill_slot-Inserted file p s rec k r e =
    elim (Bool-cases (ltb (suc (file.pages p).num_records) file.num_records_per_page)) [
      | inl y ↦ rw (y) (record {
        in_range = r;
        empty = ground (arith, found_lem file p s);
        reads = rw (found_lem _ p s) (ground arith);
        others = λ q i h. rw (found_lem _ q i, found_lem file q i) (ground arith);
      })
      | inr n ↦ rw (n) (record {
        in_range = r;
        empty = ground (arith, found_lem file p s);
        reads = rw (found_lem _ p s) (ground arith);
        others = λ q i h. rw (found_lem _ q i, found_lem file q i) (ground arith);
      })
    ]

-- The record is stored, and the chain of the file that is left is right.
pub record Stored (file : RmFile) (rid : Rid) (rec : RmRecord) (after : RmFile) : Type 0 where
  pub inserted : Inserted file rid.page_no rid.slot_no rec after
  pub free_after : List ℕ
  pub keeps : Chained after free_after none

module _ (file : RmFile) (p : ℕ) (free : List ℕ) (t : Taken file p free) (rec : RmRecord) where
  abbrev free_slot : ℕ
  free_slot = first_bit false (file.pages p).bitmap file.num_records_per_page

  slot_lem : (free_slot < file.num_records_per_page) × ((file.pages p).bitmap free_slot ≡ false)
  slot_lem =
      first_bit-free (file.pages p).bitmap file.num_records_per_page
        (ground (arith, t.chained.counted p t.positive t.known, t.has_room))

  Taken-Stored :
      Stored file (record { page_no = p; slot_no = free_slot }) rec (fill_slot file p free_slot rec)
  Taken-Stored = record {
    inserted = fill_slot-Inserted file p free_slot rec t.known slot_lem.0 slot_lem.1;
    free_after = chain_after file p free;
    keeps = fill_slot-Chained file p free t free_slot rec slot_lem.0 slot_lem.1;
  }

-- A file that `new_page` has added an empty page to reads as before.
new-found :
    (file : RmFile) (allocated q i : ℕ)
    → allocated ≡ file.num_pages
    → found (create_new_page_handle file allocated).1 q i ≡ found file q i
unfolding create_new_page_handle
new-found file allocated q i e = rw (found_lem _ q i, found_lem file q i) (ground arith)

new-per_page :
    (file : RmFile) (allocated : ℕ)
    → (create_new_page_handle file allocated).1.num_records_per_page ≡ file.num_records_per_page
unfolding create_new_page_handle
new-per_page file allocated = refl

recycled-found :
    (file : RmFile) (first : Option ℕ) (q i : ℕ)
    → found (record file { first_free_page_no = first }) q i ≡ found file q i
recycled-found file first q i = rw (found_lem _ q i, found_lem file q i) refl

-- Two files that read alike are alike for what is stored.
alike-Stored :
    (file file' : RmFile) (rid : Rid) (rec : RmRecord) (after : RmFile)
    → file'.num_records_per_page ≡ file.num_records_per_page
    → ((q i : ℕ) → found file' q i ≡ found file q i)
    → Stored file' rid rec after
    → Stored file rid rec after
alike-Stored file file' rid rec after n f s = record {
  inserted = record {
    in_range = subst (λ m. rid.slot_no < m) n s.inserted.in_range;
    empty = ground (arith, f rid.page_no rid.slot_no, s.inserted.empty);
    reads = s.inserted.reads;
    others = λ q i h. ground (arith, f q i, s.inserted.others q i h);
  };
  free_after = s.free_after;
  keeps = s.keeps;
}

create_page_handle-recycled :
    (file : RmFile) (allocated p : ℕ)
    → file.first_free_page_no ≡ some p
    → p < file.num_pages
    → create_page_handle file allocated
      ≡ answers (p, record file { first_free_page_no = (file.pages p).next_free_page_no })
unfolding create_page_handle fetch_page_handle
create_page_handle-recycled file allocated p e h = ground (arith, e, h)

create_page_handle-new :
    (file : RmFile) (allocated : ℕ)
    → file.first_free_page_no ≡ none
    → create_page_handle file allocated ≡ answers (create_new_page_handle file allocated)
unfolding create_page_handle
create_page_handle-new file allocated e = rw (e) refl

-- The record has been stored, without an exception.
abbrev pub AnswersStored : RmFile → RmRecord → Answer (Rid × RmFile) → Type 0
AnswersStored file rec (fails e) = ⊥
AnswersStored file rec (answers (rid, after)) = Stored file rid rec after

-- `insert_record` on a file whose chain is right, where `new_page` gives the next page number,
-- throws nothing and stores the record: at a place in range that no record was found at, the record
-- is found there afterwards, all other places read as before, and the chain is right again.
pub insert_record-Stored :
    (file : RmFile) (free : List ℕ) (buf : List ℕ) (trx_id : Option ℕ)
    → Chained file free none
    → 0 < file.num_records_per_page
    → 0 < file.num_pages
    → AnswersStored file
        (record { user_data = buf; trx_id = trx_id; roll_ptr = no_link })
        (insert_record file file.num_pages buf trx_id)
unfolding insert_record create_new_page_handle
insert_record-Stored file [] buf trx_id v r k =
    rw (create_page_handle-new file file.num_pages v.linked, AnswersStored, insert_record)
      (alike-Stored file _ _ _ _ (new-per_page file file.num_pages)
        (λ q i. new-found file file.num_pages q i refl)
        (Taken-Stored (create_new_page_handle file file.num_pages).1 file.num_pages []
          (new-Taken file [] v r file.num_pages refl refl k) _))
insert_record-Stored file (p ∷ ps) buf trx_id v r k =
    let known : p < file.num_pages = (v.roomy p (ground arith)).1 in
    rw
      (
        create_page_handle-recycled file file.num_pages p v.linked.0 known,
        AnswersStored,
        insert_record,
      )
      (alike-Stored file _ _ _ _ refl (recycled-found file (file.pages p).next_free_page_no) (
        Taken-Stored (record file { first_free_page_no = (file.pages p).next_free_page_no }) p ps
          (recycled-Taken file (p ∷ ps) v r p ps refl) _))
