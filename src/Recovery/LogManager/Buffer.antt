-- ===== src/Recovery/LogManager/Buffer.antt =====
-- A record in the buffer of the log: it is behind what was there, and whole.
use aidv.Prelude.{
  ℕ, ◌+◌, ◌≤◌, ◌≡◌, refl, List, [], ◌∷◌, ◌++◌, length, take, drop, arith, length-append, sym, ap,
  ◌∙◌, subst,
}
use aidv.Prelude.Memory.{write_cells, read_cells, length-read_cells, read_cells-written}
use aidv.Recovery.LogRecord.{LogRecord, record_bytes, header_bytes, body_bytes, serialize}
use aidv.Recovery.LogRecord.RoundTrip.{length-header_bytes}
use aidv.Recovery.LogManager.{LogManager, stamp, log_buffer_size, copy_over, buffered, put_record}

take_front : (xs ys : List ℕ) → take (length xs) (xs ++ ys) ≡ xs
take_front [] ys = refl
take_front (x ∷ xs) ys = ap (λ zs. x ∷ zs) (take_front xs ys)

-- What `memcpy` takes of the front of the overflow buffer is what it was given.
pub take_copied :
    (m : LogManager) → take m.offset (copy_over (buffered m) m.overflow_buffer) ≡ buffered m
take_copied m =
    subst (λ n. take n (copy_over (buffered m) m.overflow_buffer) ≡ buffered m)
      (length-read_cells m.buffer 0 m.offset)
      (take_front (buffered m) (drop (length (buffered m)) m.overflow_buffer))

-- The record says how long it is, and the buffer has room for it when it is empty.
pub record Sized (r : LogRecord) : Type 0 where
  pub whole : r.header.log_tot_len ≡ length (record_bytes r)
  pub fits : r.header.log_tot_len ≤ log_buffer_size

length-record_bytes-stamp :
    (r : LogRecord) (lsn : ℕ) → length (record_bytes (stamp r lsn)) ≡ length (record_bytes r)
unfolding record_bytes
length-record_bytes-stamp r lsn = omega (
  arith,
  length-append (header_bytes r.header) (body_bytes r.body),
  length-header_bytes r.header,
  length-append (header_bytes (stamp r lsn).header) (body_bytes r.body),
  length-header_bytes (stamp r lsn).header,
)

pub stamp-Sized : (r : LogRecord) (lsn : ℕ) → Sized r → Sized (stamp r lsn)
stamp-Sized r lsn z = record {
  whole = z.whole ∙ sym (length-record_bytes-stamp r lsn);
  fits = z.fits;
}

-- A record of the right length is behind what the buffer had.
pub buffered-put_record :
    (r : LogRecord) (m : LogManager)
    → Sized r
    → buffered (put_record r m) ≡ buffered m ++ record_bytes r
unfolding put_record serialize
buffered-put_record r m z =
    subst
      (λ n.
        read_cells (write_cells m.buffer m.offset (record_bytes r)) 0 (m.offset + n)
        ≡ buffered m ++ record_bytes r)
      (sym z.whole) (read_cells-written m.buffer 0 m.offset m.offset (record_bytes r) (omega arith))
