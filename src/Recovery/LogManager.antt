-- ===== src/Recovery/LogManager.antt =====
-- `LogBuffer` and `LogManager` of rmdb/src/recovery/log_manager.{h,cpp}. `log_file` is what
-- `write_log` has appended. The array of the buffer has log_buffer_size + 1 cells; a write behind
-- its end, which a record of a greater length makes, is undefined in C++ and one more cell here. A
-- method that lets its latch go is a function for each part under the latch, and one for the write
-- between. The background thread calls `flush_log_to_disk`; a wait for `persist_lsn` is a comparison
-- with it.
pub mod Buffer
pub mod Durable
pub mod Ahead
use aidv.Prelude.{
  ℕ, zero, suc, ◌+◌, ◌-◌, ◌*◌, ◌≡◌, Bool, true, false, Option, none, some, List, [], ◌∷◌, ◌++◌, ltb,
  leb, ◌==◌, if◌then◌else◌, length, take, drop,
}
use aidv.Prelude.Memory.{read_cells}
use aidv.Recovery.LogRecord.{LogRecord, serialize}

-- LOG_BUFFER_SIZE, 1024 pages.
abbrev pub log_buffer_size : ℕ
log_buffer_size = 1024 * 4096

-- `none` is INVALID_LSN.
pub record LogManager : Type 0 where
  pub global_lsn : ℕ
  pub buffer : ℕ → ℕ
  pub offset : ℕ
  pub persist_lsn : Option ℕ
  pub is_flushing : Bool
  pub flush_buffer : List ℕ
  pub overflow_buffer : List ℕ
  pub log_file : List ℕ

abbrev pub init : List ℕ → LogManager
init log_file = record {
  global_lsn = 0;
  buffer = λ _. 0;
  offset = 0;
  persist_lsn = none;
  is_flushing = false;
  flush_buffer = [];
  overflow_buffer = [];
  log_file = log_file;
}

-- `lsn - 1`
abbrev pub lsn_before : ℕ → Option ℕ
lsn_before zero = none
lsn_before (suc lsn) = some lsn

unfoldable pub is_full : LogManager → ℕ → Bool
is_full m append_size = ltb log_buffer_size (m.offset + append_size)

-- `memcpy` over the front of a buffer.
abbrev pub copy_over : List ℕ → List ℕ → List ℕ
copy_over new old = new ++ drop (length new) old

abbrev pub stamp : LogRecord → ℕ → LogRecord
stamp r lsn = record r { header = record r.header { lsn = lsn } }

-- The bytes that `memcpy` takes out of the buffer.
abbrev pub buffered : LogManager → List ℕ
buffered m = read_cells m.buffer 0 m.offset

-- The last part of `add_log_to_buffer`.
pub put_record : LogRecord → LogManager → LogManager
put_record r m = record m {
  buffer = serialize r m.buffer m.offset;
  offset = m.offset + r.header.log_tot_len;
}

-- What is left to do after the first part: the write of so many bytes that did not fit any more.
pub data Adding : Type 0 where
  added : Adding
  overflows : ℕ → Adding

-- The first part of `add_log_to_buffer`, of a record that has its lsn.
pub add_start : LogRecord → ℕ → LogManager → Adding × LogManager
add_start r lsn m =
    if is_full m r.header.log_tot_len
    then (if ltb 0 m.offset
        then (
          overflows m.offset,
          record m { overflow_buffer = copy_over (buffered m) m.overflow_buffer; offset = 0 },
        )
        else (added, put_record r (record m { offset = 0; persist_lsn = lsn_before lsn })))
    else (added, put_record r m)

pub write_overflow : ℕ → LogManager → LogManager
write_overflow overflow_len m = record m {
  log_file = m.log_file ++ take overflow_len m.overflow_buffer;
}

-- The latch is taken again after the write.
pub add_finish : LogRecord → ℕ → LogManager → LogManager
add_finish r lsn m = put_record r (record m { persist_lsn = lsn_before lsn })

-- The lsn is taken first, under the same latch as `add_start`.
pub take_lsn : LogManager → ℕ × LogManager
take_lsn m = (m.global_lsn, record m { global_lsn = suc m.global_lsn })

pub begin_add : LogRecord → LogManager → ℕ × Adding × LogManager
begin_add r m =
    let (lsn, m') = take_lsn m in
    let (adding, m'') = add_start (stamp r lsn) lsn m' in (lsn, adding, m'')

abbrev pub end_add : LogRecord → ℕ → Adding → LogManager → LogManager
end_add r lsn added m = m
end_add r lsn (overflows overflow_len) m =
    add_finish (stamp r lsn) lsn (write_overflow overflow_len m)

-- `add_log_to_buffer` that no other thread interrupts.
pub add_log_to_buffer : LogRecord → LogManager → LogManager × ℕ
add_log_to_buffer r m = let (lsn, adding, m') = begin_add r m in (end_add r lsn adding m', lsn)

-- A follower waits, and there may be nothing to write.
pub data Flushing : Type 0 where
  follows empty : Flushing
  leads : Option ℕ → Flushing

-- The part of `flush_log_to_disk` up to the write. The leader notes the last lsn that was given out.
pub flush_start : LogManager → Flushing × LogManager
flush_start m = if m.is_flushing then (follows, m) else if m.offset == 0 then (empty, m) else (
  leads (lsn_before m.global_lsn),
  record m { is_flushing = true; flush_buffer = buffered m; offset = 0 },
)

pub flush_write : LogManager → LogManager
flush_write m = record m { log_file = m.log_file ++ m.flush_buffer }

pub flush_finish : Option ℕ → LogManager → LogManager
flush_finish flushed_up_to m = record m { persist_lsn = flushed_up_to; is_flushing = false }

abbrev pub end_flush : Flushing → LogManager → LogManager
end_flush follows m = m
end_flush empty m = m
end_flush (leads flushed_up_to) m = flush_finish flushed_up_to (flush_write m)

-- `flush_log_to_disk` that no other thread interrupts.
pub flush_log_to_disk : LogManager → LogManager
flush_log_to_disk m = let (flushing, m') = flush_start m in end_flush flushing m'

-- `wait_for_persist_lsn` returns.
pub is_persisted : ℕ → LogManager → Bool
is_persisted target m = elim m.persist_lsn [ none ↦ false | some lsn ↦ leb target lsn ]
