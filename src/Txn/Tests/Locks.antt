-- ===== src/Txn/Tests/Locks.antt =====
-- Runs of a lock queue.
use aidv.Prelude.{◌≡◌, refl, ◌&&◌, true, false, none, some, List, [], ◌∷◌}
use aidv.Txn.Lock.{
  has, mode_eq, shared, exclusive, intention_exclusive, gap, insert_intention, group_mode_of,
  try_lock, LockRequest,
}
use aidv.Txn.Lock.Group.{record_item, table_item, requested, all_requested}
use aidv.Txn.Lock.Peace.{peaceful, QueueInv}
use aidv.Txn.Lock.Calls.{
  LockEvent, events_ask, locks, wakes, unlocks, events, new_queue, new_queue-QueueInv,
  events-Peaceful, try_lock-Decided, Decided, queue_after,
}

-- Two readers come, a writer waits for both of them, and gets the lock when they are gone.
abbrev readers_first : List LockEvent
readers_first =
    locks 1 shared none
    ∷ locks 2 shared none
    ∷ locks 3 exclusive none
    ∷ unlocks 1
    ∷ wakes 3 exclusive false none
    ∷ unlocks 2
    ∷ wakes 3 exclusive false none
    ∷ []

asked : events_ask record_item readers_first ≡ true
unfolding requested
asked = refl

events-Peaceful_example :
    (peaceful (events new_queue readers_first).request_queue ≡ true)
    × ((events new_queue readers_first).group_lock_mode
        ≡ group_mode_of (events new_queue readers_first).request_queue)
events-Peaceful_example = events-Peaceful record_item readers_first asked

ix_asked : requested table_item intention_exclusive ≡ true
unfolding requested
ix_asked = refl

try_lock-Decided_example :
    Decided 4 intention_exclusive
      (some 4)
      new_queue
      (try_lock 4 intention_exclusive (some 4) new_queue)
    × QueueInv table_item (queue_after (try_lock 4 intention_exclusive (some 4) new_queue))
try_lock-Decided_example =
    try_lock-Decided table_item 4 intention_exclusive (some 4) ix_asked new_queue
      (new_queue-QueueInv table_item)

abbrev one_reader : List LockRequest
one_reader = record { txn_id = 1; lock_mode = shared; granted = true } ∷ []

reader_asked : all_requested record_item one_reader ≡ true
unfolding requested
reader_asked = refl

exclusive_asked : requested record_item exclusive ≡ true
unfolding requested
exclusive_asked = refl

reader_apart : (has gap one_reader && has insert_intention one_reader) ≡ false
unfolding mode_eq
reader_apart = refl
