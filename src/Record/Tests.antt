-- ===== src/Record/Tests.antt =====
-- Runs of the record file on small files.
use aidv.Prelude.{
  leb, ℕ, ◌≡◌, refl, Bool, true, false, Option, none, some, [], ◌∷◌, arith, ◌==◌, if◌then◌else◌,
}
use aidv.Record.{
  RmPage, RmFile, RmRecord, Answer, answers, fails, no_link, get_record, fetch_page_handle,
  create_page_handle, create_new_page_handle, fill_slot, insert_record, insert_record_at,
  clear_slot, delete_record, first_bit, next_bit, next_from, found,
}
use aidv.Record.Chain.{Chained}
use aidv.Record.Insert.{Stored, AnswersStored, insert_record-Stored}
use aidv.Index.Node.{Rid}
use aidv.Record.Scan.{Sought, next, scan_begin, seek, next-Sought}
use aidv.Record.Delete.{Removed, delete_record-Removed}

abbrev empty_record : RmRecord
empty_record = record { user_data = []; trx_id = none; roll_ptr = no_link }

abbrev empty_page : RmPage
empty_page = record {
  next_free_page_no = none;
  num_records = 0;
  bitmap = λ _. false;
  slots = λ _. empty_record;
}

-- A file with its header page alone, and room for two records on a page.
abbrev new_file : RmFile
new_file = record {
  num_pages = 1;
  num_records_per_page = 2;
  first_free_page_no = none;
  pages = λ _. empty_page;
}

new_file-Chained : Chained new_file [] none
new_file-Chained = record {
  counted = λ p a b. absurd (omega arith);
  linked = refl;
  roomy = λ p h. absurd cc;
  once = tt;
  listed = λ p a b c n. absurd (omega arith);
}

abbrev stored_record : RmRecord
stored_record = record { user_data = 7 ∷ []; trx_id = some 3; roll_ptr = no_link }

insert_record-Stored_example :
    AnswersStored new_file stored_record (insert_record new_file 1 (7 ∷ []) (some 3))
insert_record-Stored_example =
    insert_record-Stored new_file [] (7 ∷ []) (some 3) new_file-Chained (omega arith) (omega arith)

abbrev answer_of : Answer (Rid × RmFile) → Rid × RmFile
answer_of (answers stored) = stored
answer_of (fails e) = (record { page_no = 0; slot_no = 0 }, new_file)

abbrev one_record : RmFile
one_record = (answer_of (insert_record new_file 1 (7 ∷ []) (some 3))).1

of_answer :
    (a : Answer (Rid × RmFile))
    → AnswersStored new_file stored_record a
    → Stored new_file (answer_of a).0 stored_record (answer_of a).1
of_answer (answers stored) s = s
of_answer (fails e) s = absurd s

abbrev first_stored :
    Stored new_file
      (answer_of (insert_record new_file 1 (7 ∷ []) (some 3))).0
      stored_record
      one_record
first_stored = of_answer (insert_record new_file 1 (7 ∷ []) (some 3)) (
    insert_record-Stored new_file [] (7 ∷ []) (some 3) new_file-Chained (omega arith) (omega arith))

first_rid :
    (answer_of (insert_record new_file 1 (7 ∷ []) (some 3))).0 ≡ record { page_no = 1; slot_no = 0 }
unfolding insert_record create_page_handle create_new_page_handle first_bit next_bit next_from
first_rid = refl

one_record-per_page : one_record.num_records_per_page ≡ 2
unfolding insert_record create_page_handle create_new_page_handle first_bit next_bit next_from
    fill_slot
one_record-per_page = refl

one_record-found : found one_record 1 0 ≡ some stored_record
unfolding found get_record fetch_page_handle insert_record create_page_handle create_new_page_handle
    first_bit next_bit next_from fill_slot
one_record-found = refl

delete_record-Removed_example :
    (delete_record one_record (record { page_no = 1; slot_no = 0 })
      ≡ answers (clear_slot one_record 1 0))
    × Removed one_record 1 0 (clear_slot one_record 1 0)
delete_record-Removed_example =
    delete_record-Removed one_record first_stored.free_after 1 0 stored_record first_stored.keeps
      (omega arith) (rw (one_record-per_page) (omega arith)) one_record-found

-- A page that `insert_record` at a place fills stays on the chain if it is not the first.
abbrev two_pages : RmFile
two_pages = record {
  num_pages = 3;
  num_records_per_page = 1;
  first_free_page_no = some 1;
  pages = λ p. record empty_page { next_free_page_no = if p == 1 then some 2 else none };
}

abbrev full_second : Answer RmFile
full_second = insert_record_at two_pages (record { page_no = 2; slot_no = 0 }) stored_record

-- The page that the next record but one gets, and whether it has room.
abbrev next_and_full : Answer RmFile → Option ℕ × Bool
next_and_full (answers file) =
    ((file.pages 1).next_free_page_no, (file.pages 2).num_records == file.num_records_per_page)
next_and_full (fails _) = (none, false)

full_second_lem : next_and_full full_second ≡ (some 2, true)
unfolding insert_record_at fetch_page_handle
full_second_lem = refl

-- Records in slots 0 and 2 of page 1, and in slot 1 of page 3.
abbrev scattered : RmFile
scattered = record {
  num_pages = 4;
  num_records_per_page = 3;
  first_free_page_no = some 1;
  pages = λ p. record empty_page {
    bitmap = λ s.
        if p == 1 then (if s == 1 then false else leb s 2) else (if p == 3 then s == 1 else false);
  };
}

abbrev scan_from : Rid
scan_from = record { page_no = 1; slot_no = 2 }

next-Sought_example :
    Sought scattered 1 3 (next scattered scan_from) × Sought scattered 1 0 (scan_begin scattered)
next-Sought_example = next-Sought scattered scan_from (omega arith) (omega arith)

next_lem : next scattered scan_from ≡ record { page_no = 3; slot_no = 1 }
unfolding next seek next_bit next_from
next_lem = refl

next-end : next scattered (next scattered scan_from) ≡ record { page_no = 4; slot_no = 0 }
unfolding next seek next_bit next_from
next-end = refl
