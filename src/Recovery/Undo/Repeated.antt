-- ===== src/Recovery/Undo/Repeated.antt =====
-- The undo of a change that was made, and of one that was undone before.
use aidv.Prelude.{
  ℕ, zero, suc, ◌-◌, ◌<◌, ◌≡◌, refl, true, false, ◌&&◌, Option, none, some, List, [], lt→ltb, ◌==◌,
  arith, inl, inr, Bool-cases, ap, ◌∙◌,
}
use aidv.Index.Node.{Rid}
use aidv.Record.{
  RmFile, RmRecord, Answer, answers, fails, record_not_found, ◌>>=◌, clear_slot, found,
}
use aidv.Record.Changes.{
  Effect, clear_slot-Effect, delete_record_lem, inserted_at, insert_record_at_lem,
  inserted_at-Effect, updated_at, update_record_lem, updated_at-Effect, get_record_snapshot_lem,
  missing_lem,
}
use aidv.Recovery.LogRecord.{LogBody, other}
use aidv.Recovery.Redo.{unpack, apply_change}
use aidv.Recovery.Redo.Changes.{rid_of, reading_after, apply_change-Applied}
use aidv.Recovery.Undo.{belongs, add_pages, undo_insert, undo_delete, undo_update}

-- The undo of a change, on the file of its table.
abbrev pub undo_on_file : ℕ → LogBody → RmFile → Answer RmFile
undo_on_file txn_id other file = answers file
undo_on_file txn_id (LogBody.insert value rid name) file = undo_insert txn_id rid file
undo_on_file txn_id (LogBody.delete value rid name) file = undo_delete rid value file
undo_on_file txn_id (LogBody.update old_value new_value rid name) file =
    undo_update txn_id rid old_value file

-- The log has told the truth on what the place read, and the new bytes carry the transaction's id.
abbrev pub Logged : ℕ → LogBody → Option RmRecord → Type 0
Logged txn_id other reading = Unit
Logged txn_id (LogBody.insert value rid name) reading =
    (reading ≡ none) × (belongs txn_id (unpack value) ≡ true)
Logged txn_id (LogBody.delete value rid name) reading = reading ≡ some (unpack value)
Logged txn_id (LogBody.update old_value new_value rid name) reading =
    (reading ≡ some (unpack old_value)) × (belongs txn_id (unpack new_value) ≡ true)

-- A second change at a place takes the first back, if it leaves what was read before.
Effect-Effect :
    (rid : Rid) (file middle after : RmFile) (reading : Option RmRecord)
    → Effect file rid reading middle
    → Effect middle rid (found file rid.page_no rid.slot_no) after
    → (q i : ℕ) → found after q i ≡ found file q i
Effect-Effect rid file middle after reading e d q i =
    elim (Bool-cases ((q == rid.page_no) && (i == rid.slot_no))) [
      | inl y ↦
          let same_page : q ≡ rid.page_no = ground (arith, y) in
          let same_slot : i ≡ rid.slot_no = ground (arith, y) in rw (same_page, same_slot) d.reads
      | inr n ↦ d.others q i n ∙ e.others q i n
    ]

-- The record is at the place.
abbrev pub LeftThere : RmRecord → Rid → Answer RmFile → Type 0
LeftThere rec rid a =
    (after : RmFile) × (a ≡ answers after) × (found after rid.page_no rid.slot_no ≡ some rec)

undo-other :
    (txn_id : ℕ) (rid : Rid) (old_value : List ℕ) (file : RmFile) (rec : RmRecord)
    → rid.page_no < file.num_pages
    → found file rid.page_no rid.slot_no ≡ some rec
    → belongs txn_id rec ≡ false
    → (undo_insert txn_id rid file ≡ answers file)
      × (undo_update txn_id rid old_value file ≡ answers file)
unfolding undo_insert undo_update
undo-other txn_id rid old_value file rec h e b =
    let y = lt→ltb rid.page_no file.num_pages h in
    (
      rw y (rw (get_record_snapshot_lem file rid h, e, ◌>>=◌) (rw b refl)),
      rw y (rw (get_record_snapshot_lem file rid h, e, ◌>>=◌) (rw b refl)),
    )

add_pages-none : (left : ℕ) (file : RmFile) → left ≡ 0 → add_pages left file ≡ file
unfolding add_pages
add_pages-none zero file e = refl
add_pages-none (suc left) file e = absurd (omega arith)

undo_delete-there :
    (rid : Rid) (value : List ℕ) (file : RmFile) (rec : RmRecord)
    → rid.page_no < file.num_pages
    → found file rid.page_no rid.slot_no ≡ some rec
    → undo_delete rid value file ≡ answers file
unfolding undo_delete
undo_delete-there rid value file rec h e =
    let same = add_pages-none (suc rid.page_no - file.num_pages) file (omega arith) in
    rw same (rw (get_record_snapshot_lem file rid h, e, ◌>>=◌) (rw same refl))

-- What the undo does on a page that is there.
undo_insert-own :
    (txn_id : ℕ) (rid : Rid) (file : RmFile) (rec : RmRecord)
    → rid.page_no < file.num_pages
    → found file rid.page_no rid.slot_no ≡ some rec
    → belongs txn_id rec ≡ true
    → undo_insert txn_id rid file ≡ answers (clear_slot file rid.page_no rid.slot_no)
unfolding undo_insert
undo_insert-own txn_id rid file rec h e b =
    rw (lt→ltb rid.page_no file.num_pages h)
      (rw (get_record_snapshot_lem file rid h, e, ◌>>=◌) (rw b (delete_record_lem file rid rec e)))

undo_insert-empty :
    (txn_id : ℕ) (rid : Rid) (file : RmFile)
    → rid.page_no < file.num_pages
    → found file rid.page_no rid.slot_no ≡ none
    → undo_insert txn_id rid file ≡ fails record_not_found
unfolding undo_insert
undo_insert-empty txn_id rid file h e =
    rw (lt→ltb rid.page_no file.num_pages h)
      (rw (get_record_snapshot_lem file rid h, e, ◌>>=◌) (missing_lem file rid (unpack []) h e).0)

undo_delete-empty :
    (rid : Rid) (value : List ℕ) (file : RmFile)
    → rid.page_no < file.num_pages
    → found file rid.page_no rid.slot_no ≡ none
    → undo_delete rid value file ≡ answers (inserted_at file rid (unpack value))
unfolding undo_delete
undo_delete-empty rid value file h e =
    let same = add_pages-none (suc rid.page_no - file.num_pages) file (omega arith) in
    rw same (
      rw (get_record_snapshot_lem file rid h, e, ◌>>=◌)
        (rw same (insert_record_at_lem file rid (unpack value) h)))

undo_update-own :
    (txn_id : ℕ) (rid : Rid) (old_value : List ℕ) (file : RmFile) (rec : RmRecord)
    → rid.page_no < file.num_pages
    → found file rid.page_no rid.slot_no ≡ some rec
    → belongs txn_id rec ≡ true
    → undo_update txn_id rid old_value file ≡ answers (updated_at file rid (unpack old_value))
unfolding undo_update
undo_update-own txn_id rid old_value file rec h e b = rw (lt→ltb rid.page_no file.num_pages h) (
    rw (get_record_snapshot_lem file rid h, e, ◌>>=◌)
      (rw b (update_record_lem file rid (unpack old_value) rec e)))

undo_made :
    (txn_id : ℕ) (body : LogBody) (file middle : RmFile)
    → (rid_of body).page_no < file.num_pages
    → Logged txn_id body (found file (rid_of body).page_no (rid_of body).slot_no)
    → Effect file
        (rid_of body)
        (reading_after body (found file (rid_of body).page_no (rid_of body).slot_no))
        middle
    → (after : RmFile) × (undo_on_file txn_id body middle ≡ answers after)
      × ((q i : ℕ) → found after q i ≡ found file q i)
undo_made txn_id other file middle h l e = (
  middle,
  refl,
  Effect-Effect (rid_of other) file middle middle _ e (record {
    same_pages = refl;
    reads = e.reads;
    others = λ q i n. refl;
    other_pages = λ q n. refl;
  }),
)
undo_made txn_id (LogBody.insert value rid name) file middle h l e = (
  clear_slot middle rid.page_no rid.slot_no,
  undo_insert-own txn_id rid middle (unpack value) (omega (arith, e.same_pages)) e.reads l.1,
  Effect-Effect rid file middle (clear_slot middle rid.page_no rid.slot_no) (some (unpack value)) e
      (rw (l.0) (clear_slot-Effect middle rid)),
)
undo_made txn_id (LogBody.delete value rid name) file middle h l e =
    let there : rid.page_no < middle.num_pages = omega (arith, e.same_pages) in
    (
      inserted_at middle rid (unpack value),
      undo_delete-empty rid value middle there e.reads,
      Effect-Effect rid file middle (inserted_at middle rid (unpack value)) none e
          (rw (l) (inserted_at-Effect middle rid (unpack value) there)),
    )
undo_made txn_id (LogBody.update old_value new_value rid name) file middle h l e =
    let read : found middle rid.page_no rid.slot_no ≡ some (unpack new_value) =
      e.reads ∙ ap (reading_after (LogBody.update old_value new_value rid name)) l.0 in
    (
      updated_at middle rid (unpack old_value),
      undo_update-own txn_id rid old_value middle (unpack new_value) (omega (arith, e.same_pages))
          read l.1,
      Effect-Effect rid file middle (updated_at middle rid (unpack old_value)) _ e
          (rw (l.0) (updated_at-Effect middle rid (unpack old_value) (unpack new_value) read)),
    )

-- What `undo` leaves is what was read before the change.
abbrev pub Restored : RmFile → Answer RmFile → Type 0
Restored file a =
    (after : RmFile) × (a ≡ answers after) × ((q i : ℕ) → found after q i ≡ found file q i)

-- The undo of a change that was made on a page of the file, and that was logged as it was, with the
-- id of the transaction that is undone in the bytes that an insertion or an update has logged as
-- new, answers a file that reads everywhere as before the change.
pub undo-apply_change :
    (txn_id : ℕ) (body : LogBody) (file : RmFile)
    → (rid_of body).page_no < file.num_pages
    → Logged txn_id body (found file (rid_of body).page_no (rid_of body).slot_no)
    → Restored file (apply_change body file >>= undo_on_file txn_id body)
undo-apply_change txn_id body file h l =
    let a = apply_change-Applied body file h in
    let r = undo_made txn_id body file a.0 h l a.2 in (r.0, rw (a.1, ◌>>=◌) r.1, r.2)

unowned_left :
    (txn_id : ℕ) (body : LogBody) (middle : RmFile) (rec : RmRecord)
    → (rid_of body).page_no < middle.num_pages
    → found middle (rid_of body).page_no (rid_of body).slot_no ≡ some rec
    → belongs txn_id rec ≡ false
    → undo_on_file txn_id body middle ≡ answers middle
unowned_left txn_id other middle rec h e b = refl
unowned_left txn_id (LogBody.insert value rid name) middle rec h e b =
    (undo-other txn_id rid [] middle rec h e b).0
unowned_left txn_id (LogBody.delete value rid name) middle rec h e b =
    undo_delete-there rid value middle rec h e
unowned_left txn_id (LogBody.update old_value new_value rid name) middle rec h e b =
    (undo-other txn_id rid old_value middle rec h e b).1

-- The bytes in the log may lack the transaction's id, as do those that executor_insert.h and
-- executor_update.h log. If the change of such a record leaves a record at its place, that does not
-- belong to the transaction, and the undo leaves it there.
pub undo_unowned :
    (txn_id : ℕ) (body : LogBody) (file : RmFile) (rec : RmRecord)
    → (rid_of body).page_no < file.num_pages
    → reading_after body (found file (rid_of body).page_no (rid_of body).slot_no) ≡ some rec
    → belongs txn_id rec ≡ false
    → LeftThere rec (rid_of body) (apply_change body file >>= undo_on_file txn_id body)
undo_unowned txn_id body file rec h e b =
    let a = apply_change-Applied body file h in
    let read = a.2.reads ∙ e in
    (
      a.0,
      rw (a.1, ◌>>=◌) (unowned_left txn_id body a.0 rec (omega (arith, a.2.same_pages)) read b),
      read,
    )

-- The undo of an insertion that has been undone already throws RecordNotFoundError: after the first
-- undo has answered, the slot is empty, and the second tries to delete its record.
pub undo_insert-undo_insert :
    (txn_id : ℕ) (rid : Rid) (file : RmFile) (rec : RmRecord)
    → rid.page_no < file.num_pages
    → found file rid.page_no rid.slot_no ≡ some rec
    → belongs txn_id rec ≡ true
    → (after : RmFile) × (undo_insert txn_id rid file ≡ answers after)
      × (undo_insert txn_id rid after ≡ fails record_not_found)
undo_insert-undo_insert txn_id rid file rec h e b =
    let d = clear_slot-Effect file rid in
    (
      clear_slot file rid.page_no rid.slot_no,
      undo_insert-own txn_id rid file rec h e b,
      undo_insert-empty txn_id rid (clear_slot file rid.page_no rid.slot_no)
          (omega (arith, d.same_pages)) d.reads,
    )
