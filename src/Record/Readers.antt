-- ===== src/Record/Readers.antt =====
-- The other readers of RmFileHandle, in rm_file_handle.{h,cpp}, without their locks.
use aidv.Prelude.{
  ◌≡◌, ◌<◌, Bool, true, false, Option, none, some, arith, ltb, if◌then◌else◌, inl, inr, Bool-cases,
}
use aidv.Index.Node.{Rid}
use aidv.Record.{
  RmFile, RmRecord, Answer, answers, fails, record_not_found, forget, get_record, fetch_page_handle,
}
use aidv.Record.Insert.{get_record_lem, fetch_page_handle_lem}

pub get_record_for_update : RmFile → Rid → Answer RmRecord
get_record_for_update file rid = elim (fetch_page_handle file rid.page_no) [
  | fails e ↦ fails e
  | answers page ↦
      if page.bitmap rid.slot_no then answers (page.slots rid.slot_no) else fails record_not_found
]

-- `none` is a null pointer.
unfoldable pub get_record_snapshot : RmFile → Rid → Answer (Option RmRecord)
get_record_snapshot file rid = elim (fetch_page_handle file rid.page_no) [
  | fails e ↦ fails e
  | answers page ↦
      if page.bitmap rid.slot_no then answers (some (page.slots rid.slot_no)) else answers none
]

-- With what is in the buffer afterwards.
pub get_record_into : RmFile → Rid → RmRecord → Answer (Bool × RmRecord)
get_record_into file rid buf = elim (fetch_page_handle file rid.page_no) [
  | fails e ↦ fails e
  | answers page ↦
      if page.bitmap rid.slot_no
      then answers (true, page.slots rid.slot_no)
      else answers (false, buf)
]

unfoldable pub is_record : RmFile → Rid → Answer Bool
is_record file rid = elim (fetch_page_handle file rid.page_no) [
  | fails e ↦ fails e
  | answers page ↦ answers (page.bitmap rid.slot_no)
]

abbrev pub is_found : Option RmRecord → Bool
is_found none = false
is_found (some _) = true

abbrev pub found_or : RmRecord → Option RmRecord → RmRecord
found_or buf none = buf
found_or buf (some rec) = rec

abbrev pub found_at : RmFile → Rid → Option RmRecord
found_at file rid = forget (get_record file rid)

-- What each reader answers, by what `get_record` finds.
pub record Readings (file : RmFile) (rid : Rid) (buf : RmRecord) : Type 0 where
  pub updates : get_record_for_update file rid ≡ get_record file rid
  pub snapshot : get_record_snapshot file rid ≡ answers (found_at file rid)
  pub into :
      get_record_into file rid buf
      ≡ answers (is_found (found_at file rid), found_or buf (found_at file rid))
  pub exists : is_record file rid ≡ answers (is_found (found_at file rid))

-- On a page of the file, the readers agree with `get_record`: `get_record_for_update` answers the
-- same, and `get_record_snapshot`, `get_record_into` and `is_record` do not fail where it finds no
-- record, but answer so; `get_record_into` then leaves the buffer as it was.
pub readers-Readings :
    (file : RmFile) (rid : Rid) (buf : RmRecord)
    → rid.page_no < file.num_pages
    → Readings file rid buf
unfolding get_record_for_update get_record_snapshot get_record_into is_record
readers-Readings file rid buf h =
    let y : ltb rid.page_no file.num_pages ≡ true = ground (arith, h) in
    let page = fetch_page_handle_lem file rid.page_no y in
    elim (Bool-cases ((file.pages rid.page_no).bitmap rid.slot_no)) [
      | inl b ↦ record {
        updates = simp (get_record_lem file rid, get_record_for_update, page, y, b);
        snapshot = simp (get_record_lem file rid, get_record_snapshot, page, y, b);
        into = simp (get_record_lem file rid, get_record_into, page, y, b);
        exists = simp (get_record_lem file rid, is_record, page, y, b);
      }
      | inr b ↦ record {
        updates = simp (get_record_lem file rid, get_record_for_update, page, y, b);
        snapshot = simp (get_record_lem file rid, get_record_snapshot, page, y, b);
        into = simp (get_record_lem file rid, get_record_into, page, y, b);
        exists = simp (get_record_lem file rid, is_record, page, y, b);
      }
    ]
