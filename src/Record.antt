-- ===== src/Record.antt =====
-- rmdb/src/record/: records in the slots of pages. `RmFileHandle` of rm_file_handle.{h,cpp} with the
-- pages that the buffer pool gives it, `Bitmap` of bitmap.h as an array of bits. The
-- locks and the undo logs of the context's transaction are left out.
pub mod Bits
pub mod Chain
pub mod Insert
pub mod Delete
pub mod Scan
pub mod Readers
pub mod Changes
mod Tests
use aidv.Prelude.{
  ℕ, zero, suc, ◌+◌, ◌-◌, ◌≡◌, Bool, true, false, Option, none, some, List, [], ◌∷◌, ◌==◌, ltb, leb,
  if◌then◌else◌,
}
use aidv.Index.Node.{Rid}
use aidv.Txn.Manager.{UndoLink}

abbrev pub same_bit : Bool → Bool → Bool
same_bit true b = b
same_bit false true = false
same_bit false false = true

-- The loop of `Bitmap::next_bit`, over `left` positions from the `i`-th.
pub next_from : Bool → (ℕ → Bool) → ℕ → ℕ → ℕ → ℕ
next_from bit bm max_n zero i = max_n
next_from bit bm max_n (suc left) i =
    let rest = next_from bit bm max_n left (suc i) in if same_bit (bm i) bit then i else rest

-- `first` is the position after `curr`.
pub next_bit : Bool → (ℕ → Bool) → ℕ → ℕ → ℕ
next_bit bit bm max_n first = next_from bit bm max_n (max_n - first) first

pub first_bit : Bool → (ℕ → Bool) → ℕ → ℕ
first_bit bit bm max_n = next_bit bit bm max_n 0

abbrev pub set_bit : (ℕ → Bool) → ℕ → Bool → ℕ → Bool
set_bit bm pos b i = if pos == i then b else bm i

-- The user's bytes and the hidden fields.
pub record RmRecord : Type 0 where
  pub user_data : List ℕ
  pub trx_id : Option ℕ
  pub roll_ptr : UndoLink

-- `none` is RM_NO_PAGE.
pub record RmPage : Type 0 where
  pub next_free_page_no : Option ℕ
  pub num_records : ℕ
  pub bitmap : ℕ → Bool
  pub slots : ℕ → RmRecord

pub record RmFile : Type 0 where
  pub num_pages : ℕ
  pub num_records_per_page : ℕ
  pub first_free_page_no : Option ℕ
  pub pages : ℕ → RmPage

pub data RmError : Type 0 where
  page_not_exist record_not_found : RmError

pub data Answer (A : Type 0) : Type 0 where
  answers : A → Answer A
  fails : RmError → Answer A

abbrev pub put_page : (ℕ → RmPage) → ℕ → RmPage → ℕ → RmPage
put_page pages p page q = if p == q then page else pages q

abbrev pub put_slot : (ℕ → RmRecord) → ℕ → RmRecord → ℕ → RmRecord
put_slot slots i rec j = if i == j then rec else slots j

-- The page handle of a page of the file.
unfoldable pub fetch_page_handle : RmFile → ℕ → Answer RmPage
fetch_page_handle file page_no =
    if ltb page_no file.num_pages then answers (file.pages page_no) else fails page_not_exist

unfoldable pub get_record : RmFile → Rid → Answer RmRecord
get_record file rid = elim (fetch_page_handle file rid.page_no) [
  | fails e ↦ fails e
  | answers page ↦
      if page.bitmap rid.slot_no then answers (page.slots rid.slot_no) else fails record_not_found
]

-- `allocated` is the page number that `new_page` gives.
pub create_new_page_handle : RmFile → ℕ → ℕ × RmFile
create_new_page_handle file allocated =
    let page : RmPage = record (file.pages allocated) {
      next_free_page_no = none;
      num_records = 0;
      bitmap = λ _. false;
    } in
    (
      allocated,
      record file { num_pages = suc file.num_pages; pages = put_page file.pages allocated page },
    )

-- The page that takes the next record, off the chain of free pages.
pub create_page_handle : RmFile → ℕ → Answer (ℕ × RmFile)
create_page_handle file allocated = elim file.first_free_page_no [
  | none ↦ answers (create_new_page_handle file allocated)
  | some page_no ↦ elim (fetch_page_handle file page_no) [
    | fails e ↦ fails e
    | answers page ↦ answers (page_no, record file { first_free_page_no = page.next_free_page_no })
  ]
]

abbrev pub no_link : UndoLink
no_link = record { prev_txn = some 0; prev_log_idx = 0 }

-- The record in the slot, and the page back on the chain if it has room.
pub fill_slot : RmFile → ℕ → ℕ → RmRecord → RmFile
fill_slot file page_no slot_no rec =
    let page = file.pages page_no in
    let filled : RmPage = record page {
      bitmap = set_bit page.bitmap slot_no true;
      slots = put_slot page.slots slot_no rec;
      num_records = suc page.num_records;
    } in
    if ltb (suc page.num_records) file.num_records_per_page
    then record file {
      pages =
          put_page file.pages page_no
            (record filled { next_free_page_no = file.first_free_page_no });
      first_free_page_no = some page_no;
    }
    else record file { pages = put_page file.pages page_no filled }

-- The roll pointer is zeroed: transaction 0 and index 0.
pub insert_record : RmFile → ℕ → List ℕ → Option ℕ → Answer (Rid × RmFile)
insert_record file allocated buf trx_id = elim (create_page_handle file allocated) [
  | fails e ↦ fails e
  | answers (page_no, file') ↦
      let slot_no = first_bit false (file'.pages page_no).bitmap file'.num_records_per_page in
      let rec : RmRecord = record { user_data = buf; trx_id = trx_id; roll_ptr = no_link } in
      answers (record { page_no = page_no; slot_no = slot_no }, fill_slot file' page_no slot_no rec)
]

abbrev pub is_head : Option ℕ → ℕ → Bool
is_head none page_no = false
is_head (some p) page_no = p == page_no

-- `insert_record` at a given place.
pub insert_record_at : RmFile → Rid → RmRecord → Answer RmFile
insert_record_at file rid rec = elim (fetch_page_handle file rid.page_no) [
  | fails e ↦ fails e
  | answers page ↦
      let filled : RmPage = record page {
        bitmap = set_bit page.bitmap rid.slot_no true;
        slots = put_slot page.slots rid.slot_no rec;
        num_records = suc page.num_records;
      } in
      let full = suc page.num_records == file.num_records_per_page in
      answers (record file {
        pages = put_page file.pages rid.page_no filled;
        first_free_page_no =
            if full
            then (if is_head file.first_free_page_no rid.page_no
                then page.next_free_page_no
                else file.first_free_page_no)
            else file.first_free_page_no;
      })
]

-- A page that was full goes on the chain.
pub clear_slot : RmFile → ℕ → ℕ → RmFile
clear_slot file page_no slot_no =
    let page = file.pages page_no in
    let cleared : RmPage = record page {
      bitmap = set_bit page.bitmap slot_no false;
      num_records = page.num_records - 1;
    } in
    if page.num_records - 1 == file.num_records_per_page - 1
    then record file {
      pages =
          put_page file.pages page_no
            (record cleared { next_free_page_no = file.first_free_page_no });
      first_free_page_no = some page_no;
    }
    else record file { pages = put_page file.pages page_no cleared }

-- An answer's value, its error forgotten.
abbrev pub forget : {A : Type 0} → Answer A → Option A
forget (answers a) = some a
forget (fails _) = none

unfoldable pub found : RmFile → ℕ → ℕ → Option RmRecord
found file page_no slot_no =
    forget (get_record file (record { page_no = page_no; slot_no = slot_no }))

-- `delete_record` without a context.
pub delete_record : RmFile → Rid → Answer RmFile
delete_record file rid = elim (fetch_page_handle file rid.page_no) [
  | fails e ↦ fails e
  | answers page ↦
      if page.bitmap rid.slot_no
      then answers (clear_slot file rid.page_no rid.slot_no)
      else fails record_not_found
]

-- `update_record` without a context, where the buffer has the whole record.
pub update_record : RmFile → Rid → RmRecord → Answer RmFile
update_record file rid rec = elim (fetch_page_handle file rid.page_no) [
  | fails e ↦ fails e
  | answers page ↦
      if page.bitmap rid.slot_no
      then answers (record file {
        pages =
            put_page file.pages rid.page_no
              (record page { slots = put_slot page.slots rid.slot_no rec });
      })
      else fails record_not_found
]

infixl 5 ◌>>=◌
abbrev pub ◌>>=◌ : {A B : Type 0} → Answer A → (A → Answer B) → Answer B
answers a >>= f = f a
fails e >>= f = fails e
