-- ===== src/Recovery/LogManager/Durable.antt =====
-- The log and its buffer after calls that do not interrupt one another.
use aidv.Prelude.{
  ℕ, zero, suc, ◌+◌, ◌≤◌, ◌≡◌, refl, false, Option, none, some, List, [], ◌∷◌, ◌++◌, ltb, ◌==◌,
  length, arith, inl, inr, Bool-cases, length-append, sym, ap, ◌∙◌, subst,
}
use mathlib.Core.List.{append_assoc, append-nil}
use aidv.Prelude.Memory.{read_cells}
use aidv.Recovery.LogRecord.{LogRecord, record_bytes}
use aidv.Recovery.Walk.{log_bytes, length-log_bytes}
use aidv.Recovery.LogManager.Buffer.{take_copied, Sized, stamp-Sized, buffered-put_record}
use aidv.Recovery.LogManager.{
  LogManager, init, lsn_before, is_full, stamp, log_buffer_size, buffered, put_record, add_start,
  write_overflow, add_finish, take_lsn, begin_add, add_log_to_buffer, flush_start, flush_write,
  flush_finish, flush_log_to_disk,
}

log_bytes-append : (rs ss : List LogRecord) → log_bytes (rs ++ ss) ≡ log_bytes rs ++ log_bytes ss
log_bytes-append [] ss = refl
log_bytes-append (r ∷ rs) ss = simp (log_bytes-append rs ss, append_assoc)

-- How many lsns count as persistent.
abbrev pub persisted : Option ℕ → ℕ
persisted none = 0
persisted (some lsn) = suc lsn

persisted-lsn_before : (lsn : ℕ) → persisted (lsn_before lsn) ≡ lsn
persisted-lsn_before zero = refl
persisted-lsn_before (suc lsn) = refl

-- The records of the log are those in the file, and then those in the buffer. No lsn counts as
-- persistent whose record is not in the file, and the buffer has not run over.
pub record Durable (start : List ℕ) (log : List LogRecord) (m : LogManager) : Type 0 where
  pub written : List LogRecord
  pub waiting : List LogRecord
  pub all : log ≡ written ++ waiting
  pub on_disk : m.log_file ≡ start ++ log_bytes written
  pub in_buffer : buffered m ≡ log_bytes waiting
  pub bounded : m.offset ≤ log_buffer_size
  pub numbered : m.global_lsn ≡ length log
  pub persistent : persisted m.persist_lsn ≤ length written
  pub idle : m.is_flushing ≡ false

none_waiting : (waiting : List LogRecord) → length (log_bytes waiting) ≡ 0 → waiting ≡ []
none_waiting [] h = refl
none_waiting (r ∷ rs) h = absurd (omega (arith, length-log_bytes (r ∷ rs)))

on_disk_more :
    (start : List ℕ) (written waiting : List LogRecord)
    → (start ++ log_bytes written) ++ log_bytes waiting ≡ start ++ log_bytes (written ++ waiting)
on_disk_more start written waiting = simp (log_bytes-append written waiting, append_assoc)

log_bytes_one : (r : LogRecord) → log_bytes (r ∷ []) ≡ record_bytes r
log_bytes_one r = append-nil (record_bytes r)

not_full :
    (m : LogManager) (r : LogRecord)
    → is_full m r.header.log_tot_len ≡ false
    → m.offset + r.header.log_tot_len ≤ log_buffer_size
unfolding is_full
not_full m r n = ground (arith, n)

-- A record behind those that wait.
put-Durable :
    (start : List ℕ) (written waiting : List LogRecord) (next : LogRecord) (u : LogManager)
    → Sized next
    → u.log_file ≡ start ++ log_bytes written
    → buffered u ≡ log_bytes waiting
    → u.offset + next.header.log_tot_len ≤ log_buffer_size
    → u.global_lsn ≡ suc (length (written ++ waiting))
    → persisted u.persist_lsn ≤ length written
    → u.is_flushing ≡ false
    → Durable start (written ++ (waiting ++ (next ∷ []))) (put_record next u)
unfolding put_record
put-Durable start written waiting next u z on_disk in_buffer room numbered persistent idle =
    record {
      written = written;
      waiting = waiting ++ (next ∷ []);
      all = refl;
      on_disk = on_disk;
      in_buffer =
          buffered-put_record next u z
          ∙ (ap (λ b. b ++ record_bytes next) in_buffer
              ∙ (ap (λ b. log_bytes waiting ++ b) (sym (log_bytes_one next))
                  ∙ sym (log_bytes-append waiting (next ∷ []))));
      bounded = room;
      numbered = omega (
        arith,
        numbered,
        length-append written waiting,
        length-append waiting (next ∷ []),
        length-append written (waiting ++ (next ∷ [])),
      );
      persistent = persistent;
      idle = idle;
    }

module _ (start : List ℕ) (log : List LogRecord) (m : LogManager) (d : Durable start log m) where
  abbrev next_record : LogRecord → LogRecord
  next_record r = stamp r m.global_lsn

  -- Once the buffer has been written, the file has the whole log.
  all_on_disk : m.log_file ++ buffered m ≡ start ++ log_bytes log
  all_on_disk =
      ap (λ bytes. bytes ++ buffered m) d.on_disk
      ∙ (ap (λ bytes. (start ++ log_bytes d.written) ++ bytes) d.in_buffer
          ∙ (on_disk_more start d.written d.waiting ∙ ap (λ l. start ++ log_bytes l) (sym d.all)))

  -- An empty buffer: the whole log is in the file.
  no_waiting : m.offset ≡ 0 → log ≡ d.written
  unfolding read_cells
  no_waiting none_left =
      let no_bytes : buffered m ≡ [] = rw none_left refl in
      let nothing : d.waiting ≡ [] =
        none_waiting d.waiting (ap length (sym d.in_buffer) ∙ ap length no_bytes) in
      d.all ∙ (ap (λ w. d.written ++ w) nothing ∙ append-nil d.written)

  module _ (r : LogRecord) (z : Sized r) where
    -- The first record of an empty buffer, once the file has the log.
    first-Durable :
        (u : LogManager)
        → u.log_file ≡ start ++ log_bytes log
        → u.offset ≡ 0
        → u.global_lsn ≡ suc m.global_lsn
        → u.persist_lsn ≡ lsn_before m.global_lsn
        → u.is_flushing ≡ false
        → Durable start (log ++ (next_record r ∷ [])) (put_record (next_record r) u)
    unfolding read_cells
    first-Durable u on_disk none_left lsn before idle =
        put-Durable start log [] (next_record r) u (stamp-Sized r m.global_lsn z) on_disk
          (rw none_left refl) (omega (arith, none_left, z.fits))
          (omega (arith, lsn, d.numbered, length-append log []))
          (omega (arith, ap persisted before, persisted-lsn_before m.global_lsn, d.numbered)) idle

    add-Durable : Durable start (log ++ (next_record r ∷ [])) (add_log_to_buffer r m).0
    unfolding add_log_to_buffer begin_add take_lsn add_start write_overflow add_finish
    add-Durable =
        let m' : LogManager = record m { global_lsn = suc m.global_lsn } in
        let next = next_record r in
        let joined : log ++ (next ∷ []) ≡ d.written ++ (d.waiting ++ (next ∷ [])) =
          ap (λ l. l ++ (next ∷ [])) d.all ∙ append_assoc d.written d.waiting (next ∷ []) in
        elim (Bool-cases (is_full m' r.header.log_tot_len)) [
          | inr n ↦
              let room : m.offset + r.header.log_tot_len ≤ log_buffer_size = not_full m' r n in
              rw n (
                subst (λ l. Durable start l (put_record next m')) (sym joined)
                  (put-Durable start d.written d.waiting next m' (stamp-Sized r m.global_lsn z)
                    d.on_disk d.in_buffer room (ap suc (d.numbered ∙ ap length d.all)) d.persistent
                    d.idle))
          | inl y ↦ elim (Bool-cases (ltb 0 m.offset)) [
            | inl b ↦
                rw (y, b)
                  (first-Durable _ (ap (λ bytes. m.log_file ++ bytes) (take_copied m) ∙ all_on_disk)
                    refl refl refl d.idle)
            | inr b ↦
                rw (y, b)
                  (first-Durable _
                    (d.on_disk
                      ∙ ap (λ l. start ++ log_bytes l) (sym (no_waiting (ground (arith, b)))))
                    refl refl refl d.idle)
          ]
        ]

  flush-Durable : Durable start log (flush_log_to_disk m)
  unfolding read_cells flush_log_to_disk flush_start flush_write flush_finish
  flush-Durable = elim (Bool-cases (m.offset == 0)) [
    | inl y ↦
        rw (d.idle, y)
          (record {
            written = d.written;
            waiting = d.waiting;
            all = d.all;
            on_disk = d.on_disk;
            in_buffer = d.in_buffer;
            bounded = d.bounded;
            numbered = d.numbered;
            persistent = d.persistent;
            idle = refl;
          })
    | inr n ↦
        rw (d.idle, n)
          (record {
            written = log;
            waiting = [];
            all = sym (append-nil log);
            on_disk = all_on_disk;
            in_buffer = refl;
            bounded = omega arith;
            numbered = d.numbered;
            persistent = omega (arith, persisted-lsn_before m.global_lsn, d.numbered);
            idle = refl;
          })
  ]

pub data Call : Type 0 where
  add : LogRecord → Call
  flush : Call

abbrev pub call : Call → LogManager → LogManager
call (add r) m = (add_log_to_buffer r m).0
call flush m = flush_log_to_disk m

abbrev pub run : List Call → LogManager → LogManager
run [] m = m
run (c ∷ cs) m = run cs (call c m)

-- Every call adds a record of a right length.
abbrev pub AllSized : List Call → Type 0
AllSized [] = Unit
AllSized (add r ∷ cs) = Sized r × AllSized cs
AllSized (flush ∷ cs) = AllSized cs

-- The records that the calls add, with the lsns one after another.
abbrev pub records : ℕ → List Call → List LogRecord
records lsn [] = []
records lsn (add r ∷ cs) = stamp r lsn ∷ records (suc lsn) cs
records lsn (flush ∷ cs) = records lsn cs

init-Durable : (start : List ℕ) → Durable start [] (init start)
unfolding read_cells
init-Durable start = record {
  written = [];
  waiting = [];
  all = refl;
  on_disk = sym (append-nil start);
  in_buffer = refl;
  bounded = omega arith;
  numbered = refl;
  persistent = omega arith;
  idle = refl;
}

run-more :
    (start : List ℕ) (log : List LogRecord) (m : LogManager) (cs : List Call)
    → AllSized cs
    → Durable start log m
    → Durable start (log ++ records (length log) cs) (run cs m)
run-more start log m [] z d = subst (λ l. Durable start l m) (sym (append-nil log)) d
run-more start log m (add r ∷ cs) z d =
    let next = stamp r m.global_lsn in
    let size : length (log ++ (next ∷ [])) ≡ suc (length log) =
      omega (arith, length-append log (next ∷ [])) in
    let rest =
      run-more start (log ++ (next ∷ [])) (add_log_to_buffer r m).0 cs z.1
        (add-Durable start log m d r z.0) in
    subst (λ l. Durable start l (run cs (add_log_to_buffer r m).0))
      (append_assoc log (next ∷ []) (records (length (log ++ (next ∷ []))) cs)
        ∙ rw (size, d.numbered) refl)
      rest
run-more start log m (flush ∷ cs) z d =
    run-more start log (flush_log_to_disk m) cs z (flush-Durable start log m d)

-- After any calls that do not interrupt one another, the records that were added, with their lsns in
-- order, are in the log file and then in the buffer, each once and whole, and the buffer has not run
-- over its size. What `persist_lsn` counts as persistent is in the file. Each record added says
-- truly how long it is, and is no longer than the buffer.
pub run-Durable :
    (start : List ℕ) (cs : List Call)
    → AllSized cs
    → Durable start (records 0 cs) (run cs (init start))
run-Durable start cs z = run-more start [] (init start) cs z (init-Durable start)
