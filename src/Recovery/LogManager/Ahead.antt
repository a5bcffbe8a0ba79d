-- ===== src/Recovery/LogManager/Ahead.antt =====
-- The calls that `add_log_to_buffer` lets in while it writes the buffer that was full.
use aidv.Prelude.{
  ℕ, suc, ◌+◌, ◌≤◌, ◌<◌, ◌≡◌, refl, true, false, ◌++◌, ltb, leb, ◌==◌, arith, ap, sym, subst,
}
use aidv.Recovery.LogRecord.{LogRecord, record_bytes, serialize}
use aidv.Prelude.Memory.{write_cells, read_cells, read_cells-written}
use aidv.Recovery.LogRecord.RoundTrip.{length-record_bytes}
use aidv.Recovery.LogManager.{
  LogManager, is_full, lsn_before, copy_over, buffered, overflows, log_buffer_size, stamp,
  put_record, add_start, write_overflow, add_finish, take_lsn, begin_add, end_add,
  add_log_to_buffer, leads, flush_start, flush_write, flush_finish, end_flush, is_persisted,
}
use aidv.Recovery.LogManager.Buffer.{take_copied, Sized, stamp-Sized}

-- While `r` waits for the write of the full buffer, another thread adds `r'` and a leader starts a
-- flush; the leader comes to its write after `r` has finished.
abbrev pub interleaved : LogRecord → LogRecord → LogManager → LogManager
interleaved r r' m =
    let (lsn, adding, m1) = begin_add r m in
    let m2 = (add_log_to_buffer r' m1).0 in
    let (flushing, m3) = flush_start m2 in end_flush flushing (end_add r lsn adding m3)

some_bytes : (r : LogRecord) → Sized r → 0 + r.header.log_tot_len == 0 ≡ false
some_bytes r z = ground (arith, length-record_bytes r, z.whole)

-- The full buffer is copied out, and the latch let go.
begin_add-overflows :
    (r : LogRecord) (m : LogManager)
    → is_full m r.header.log_tot_len ≡ true
    → 0 < m.offset
    → begin_add r m ≡ (
      m.global_lsn,
      overflows m.offset,
      record m {
        global_lsn = suc m.global_lsn;
        overflow_buffer = copy_over (buffered m) m.overflow_buffer;
        offset = 0;
      },
    )
unfolding is_full begin_add take_lsn add_start
begin_add-overflows r m full some_buffer =
    let y : ltb 0 m.offset ≡ true = ground (arith, some_buffer) in rw (full, y) refl

-- A record that fits an empty buffer goes into it.
add_log_to_buffer-empty :
    (r : LogRecord) (m : LogManager)
    → m.offset ≡ 0
    → r.header.log_tot_len ≤ log_buffer_size
    → (add_log_to_buffer r m).0
      ≡ put_record (stamp r m.global_lsn) (record m { global_lsn = suc m.global_lsn })
unfolding is_full begin_add take_lsn add_start put_record add_log_to_buffer
add_log_to_buffer-empty r m no_bytes fits =
    let n : ltb log_buffer_size (0 + r.header.log_tot_len) ≡ false = ground (arith, fits) in
    rw (no_bytes, n) refl

flush_start-leads :
    (m : LogManager)
    → m.is_flushing ≡ false
    → m.offset == 0 ≡ false
    → flush_start m ≡ (
      leads (lsn_before m.global_lsn),
      record m { is_flushing = true; flush_buffer = buffered m; offset = 0 },
    )
unfolding flush_start
flush_start-leads m idle n = rw (idle, n) refl

-- A record in an empty buffer is all that the buffer has.
read_cells-serialize :
    (r : LogRecord) (src : ℕ → ℕ)
    → Sized r
    → read_cells (serialize r src 0) 0 (0 + r.header.log_tot_len) ≡ record_bytes r
unfolding serialize read_cells
read_cells-serialize r src z =
    subst (λ n. read_cells (write_cells src 0 (record_bytes r)) 0 (0 + n) ≡ record_bytes r)
      (sym z.whole) (read_cells-written src 0 0 0 (record_bytes r) (omega arith))

-- Where `r` does not fit any more and `r'` fits an empty buffer, and both say truly how long they
-- are, the wait for the lsn of `r` returns after these steps, and yet the file has only the old
-- buffer and `r'`: `r` is in the buffer alone.
pub interleaved-is_persisted :
    (r r' : LogRecord) (m : LogManager)
    → Sized r
    → Sized r'
    → m.is_flushing ≡ false
    → is_full m r.header.log_tot_len ≡ true
    → 0 < m.offset
    → (is_persisted m.global_lsn (interleaved r r' m) ≡ true)
      × (buffered (interleaved r r' m) ≡ record_bytes (stamp r m.global_lsn))
      × ((interleaved r r' m).log_file
          ≡ (m.log_file ++ buffered m) ++ record_bytes (stamp r' (suc m.global_lsn)))
unfolding write_overflow add_finish flush_write flush_finish is_persisted put_record
interleaved-is_persisted r r' m z z' idle full some_buffer =
    let lsn = m.global_lsn in
    let m1 = (begin_add r m).2 in
    let m2 = (add_log_to_buffer r' m1).0 in
    let m3 = (flush_start m2).1 in
    let begun = begin_add-overflows r m full some_buffer in
    let next = add_log_to_buffer-empty r' m1 (rw begun refl) z'.fits in
    let flushed =
      flush_start-leads m2 (rw (next, begun) idle)
        (rw (next, begun) (some_bytes (stamp r' (suc lsn)) (stamp-Sized r' (suc lsn) z'))) in
    let earlier : leb lsn (suc lsn) ≡ true = ground arith in
    rw (flushed, next, begun, take_copied m)
      (
        earlier,
        read_cells-serialize (stamp r lsn) (serialize (stamp r' (suc lsn)) m.buffer 0)
            (stamp-Sized r lsn z),
        ap (λ bytes. (m.log_file ++ buffered m) ++ bytes)
            (read_cells-serialize (stamp r' (suc lsn)) m.buffer (stamp-Sized r' (suc lsn) z')),
      )
