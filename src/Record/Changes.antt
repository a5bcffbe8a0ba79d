-- ===== src/Record/Changes.antt =====
-- What the changes of a record at a given place do, those that the recovery makes.
use aidv.Prelude.{
  ℕ, suc, ◌-◌, ◌<◌, ◌≡◌, refl, true, false, ◌&&◌, Option, none, some, ltb, ◌==◌, if◌then◌else◌,
  arith, inl, inr, Bool-cases, ap, lt→ltb,
}
use aidv.Index.Node.{Rid}
use aidv.Record.{
  RmPage, RmFile, RmRecord, answers, fails, record_not_found, put_page, put_slot, set_bit, found,
  insert_record_at, is_head, delete_record, clear_slot, update_record,
}
use aidv.Record.Insert.{found_lem, fetch_page_handle_lem}
use aidv.Record.Readers.{is_record, is_found, get_record_snapshot}

-- After the change the place reads so, and every other place reads as before. No page is added, and
-- the other pages are left as they are.
pub record Effect (file : RmFile) (rid : Rid) (reading : Option RmRecord) (after : RmFile)
    : Type 0 where
  pub same_pages : after.num_pages ≡ file.num_pages
  pub reads : found after rid.page_no rid.slot_no ≡ reading
  pub others :
      (q i : ℕ)
      → ((q == rid.page_no) && (i == rid.slot_no)) ≡ false
      → found after q i ≡ found file q i
  pub other_pages : (q : ℕ) → (rid.page_no == q) ≡ false → after.pages q ≡ file.pages q

abbrev page_with : RmPage → ℕ → RmRecord → RmPage
page_with page slot_no rec = record page {
  bitmap = set_bit page.bitmap slot_no true;
  slots = put_slot page.slots slot_no rec;
  num_records = suc page.num_records;
}

pub is_record_lem :
    (file : RmFile) (rid : Rid)
    → rid.page_no < file.num_pages
    → is_record file rid ≡ answers (is_found (found file rid.page_no rid.slot_no))
unfolding is_record
is_record_lem file rid h =
    rw (fetch_page_handle_lem file rid.page_no (lt→ltb rid.page_no file.num_pages h), is_record)
      (ap answers (ground (arith, found_lem file rid.page_no rid.slot_no)))

-- Where a record is found, the page is there and the bit is set.
present :
    (file : RmFile) (rid : Rid) (old : RmRecord)
    → found file rid.page_no rid.slot_no ≡ some old
    → (ltb rid.page_no file.num_pages ≡ true) × ((file.pages rid.page_no).bitmap rid.slot_no ≡ true)
present file rid old e =
    let f = found_lem file rid.page_no rid.slot_no in (ground (arith, f, e), ground (arith, f, e))

pub clear_slot-Effect :
    (file : RmFile) (rid : Rid) → Effect file rid none (clear_slot file rid.page_no rid.slot_no)
unfolding clear_slot
clear_slot-Effect file rid =
    elim (Bool-cases ((file.pages rid.page_no).num_records - 1 == file.num_records_per_page - 1)) [
      | inl y ↦ rw y (record {
        same_pages = refl;
        reads = rw (found_lem _ rid.page_no rid.slot_no) (ground arith);
        others = λ q i n. rw (found_lem _ q i, found_lem file q i) (ground arith);
        other_pages = λ q n. rw n refl;
      })
      | inr y ↦ rw y (record {
        same_pages = refl;
        reads = rw (found_lem _ rid.page_no rid.slot_no) (ground arith);
        others = λ q i n. rw (found_lem _ q i, found_lem file q i) (ground arith);
        other_pages = λ q n. rw n refl;
      })
    ]

pub delete_record_lem :
    (file : RmFile) (rid : Rid) (old : RmRecord)
    → found file rid.page_no rid.slot_no ≡ some old
    → delete_record file rid ≡ answers (clear_slot file rid.page_no rid.slot_no)
unfolding delete_record
delete_record_lem file rid old e =
    let p = present file rid old e in
    rw (fetch_page_handle_lem file rid.page_no p.0, delete_record) (rw p.1 refl)

module _ (file : RmFile) (rid : Rid) (rec : RmRecord) where
  abbrev pub inserted_at : RmFile
  inserted_at = record file {
    pages = put_page file.pages rid.page_no (page_with (file.pages rid.page_no) rid.slot_no rec);
    first_free_page_no =
        if suc (file.pages rid.page_no).num_records == file.num_records_per_page
        then (if is_head file.first_free_page_no rid.page_no
            then (file.pages rid.page_no).next_free_page_no
            else file.first_free_page_no)
        else file.first_free_page_no;
  }

  pub insert_record_at_lem :
      rid.page_no < file.num_pages → insert_record_at file rid rec ≡ answers inserted_at
  unfolding insert_record_at
  insert_record_at_lem h =
      rw
        (
          fetch_page_handle_lem file rid.page_no (lt→ltb rid.page_no file.num_pages h),
          insert_record_at,
        )
        refl

  pub inserted_at-Effect : rid.page_no < file.num_pages → Effect file rid (some rec) inserted_at
  inserted_at-Effect h = record {
    same_pages = refl;
    reads = rw (found_lem inserted_at rid.page_no rid.slot_no) (ground arith);
    others = λ q i n. rw (found_lem inserted_at q i, found_lem file q i) (ground arith);
    other_pages = λ q n. rw n refl;
  }

  abbrev pub updated_at : RmFile
  updated_at = record file {
    pages = put_page file.pages rid.page_no (record (file.pages rid.page_no) {
      slots = put_slot (file.pages rid.page_no).slots rid.slot_no rec;
    });
  }

  pub update_record_lem :
      (old : RmRecord)
      → found file rid.page_no rid.slot_no ≡ some old
      → update_record file rid rec ≡ answers updated_at
  unfolding update_record
  update_record_lem old e =
      let p = present file rid old e in
      rw (fetch_page_handle_lem file rid.page_no p.0, update_record) (rw p.1 refl)

  pub updated_at-Effect :
      (old : RmRecord)
      → found file rid.page_no rid.slot_no ≡ some old
      → Effect file rid (some rec) updated_at
  updated_at-Effect old e =
      let f = found_lem file rid.page_no rid.slot_no in
      record {
        same_pages = refl;
        reads = rw (found_lem updated_at rid.page_no rid.slot_no) (ground (arith, f, e));
        others = λ q i n. rw (found_lem updated_at q i, found_lem file q i) (ground arith);
        other_pages = λ q n. rw n refl;
      }

pub get_record_snapshot_lem :
    (file : RmFile) (rid : Rid)
    → rid.page_no < file.num_pages
    → get_record_snapshot file rid ≡ answers (found file rid.page_no rid.slot_no)
unfolding get_record_snapshot
get_record_snapshot_lem file rid h =
    let y = lt→ltb rid.page_no file.num_pages h in
    rw (fetch_page_handle_lem file rid.page_no y, get_record_snapshot)
      (elim (Bool-cases ((file.pages rid.page_no).bitmap rid.slot_no)) [
        | inl b ↦ rw b (ap answers (ground (arith, found_lem file rid.page_no rid.slot_no, b)))
        | inr b ↦ rw b (ap answers (ground (arith, found_lem file rid.page_no rid.slot_no, b)))
      ])

-- Where a page has no record in the slot, there is none to delete or to update.
pub missing_lem :
    (file : RmFile) (rid : Rid) (rec : RmRecord)
    → rid.page_no < file.num_pages
    → found file rid.page_no rid.slot_no ≡ none
    → (delete_record file rid ≡ fails record_not_found)
      × (update_record file rid rec ≡ fails record_not_found)
unfolding delete_record update_record
missing_lem file rid rec h e =
    let y = lt→ltb rid.page_no file.num_pages h in
    let b : (file.pages rid.page_no).bitmap rid.slot_no ≡ false =
      ground (arith, found_lem file rid.page_no rid.slot_no, e) in
    (
      rw (fetch_page_handle_lem file rid.page_no y, delete_record) (rw b refl),
      rw (fetch_page_handle_lem file rid.page_no y, update_record) (rw b refl),
    )
