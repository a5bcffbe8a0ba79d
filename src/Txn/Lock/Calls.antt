-- ===== src/Txn/Lock/Calls.antt =====
-- The calls on a queue: the invariant is kept, and a lock is granted where nothing excludes it.
use aidv.Prelude.{
  ℕ, ◌≡◌, refl, sym, inl, inr, Bool, true, false, Option, none, some, ◌&&◌, not, List, [], ◌∷◌,
  ◌++◌, arith, if◌then◌else◌, Bool-cases,
}
use aidv.Txn.Lock.{
  LockMode, LockRequestQueue, others_granted, Holding, covered, conflicting, uncovered, upgraded,
  holding, Attempt, grants, waits, aborts, upgrade_conflict, deadlock_prevention, request, try_lock,
  lock_common, wake, unlock, holds_granted, is_compatible, update_group_lock_mode, group_mode_of,
  strongest, non_lock,
}
use aidv.Txn.Lock.Group.{LockDataType, requested, conflicts_any, is_compatible-conflicts_any}
use aidv.Txn.Lock.Peace.{
  QueueInv, peaceful, grant-QueueInv, waiting-QueueInv, unwaiting-QueueInv, released-QueueInv,
}
use aidv.Txn.Lock.Upgrade.{Upgraded, holding-Upgraded, upgraded-QueueInv}

abbrev pub queue_after : Attempt → LockRequestQueue
queue_after (grants q) = q
queue_after (waits q) = q
queue_after (aborts _ _ q) = q

-- What the waiting loop decides on, and what it leaves.
abbrev pub Decided : ℕ → LockMode → Option ℕ → LockRequestQueue → Attempt → Type 0
Decided my_id mode victim q (grants q') =
    (conflicts_any mode q.request_queue ≡ false)
    × (q'.request_queue ≡ q.request_queue ++ request my_id mode true ∷ [])
Decided my_id mode victim q (waits q') =
    (conflicts_any mode q.request_queue ≡ true)
    × (victim ≡ none)
    × (q'.request_queue ≡ q.request_queue ++ request my_id mode false ∷ [])
Decided my_id mode victim q (aborts txn reason q') =
    (conflicts_any mode q.request_queue ≡ true)
    × (victim ≡ some txn)
    × (reason ≡ deadlock_prevention)
    × (q' ≡ q)

module _ (kind : LockDataType) (my_id : ℕ) (mode : LockMode) (victim : Option ℕ)
    (asked : requested kind mode ≡ true) where
  module _ (q : LockRequestQueue) (v : QueueInv kind q) where
    exact : is_compatible mode q.group_lock_mode ≡ not (conflicts_any mode q.request_queue)
    exact =
        rw (v.group) (is_compatible-conflicts_any kind mode q.request_queue asked v.modes v.apart)

    tried :
        (c : Bool) (o : Option ℕ)
        → is_compatible mode q.group_lock_mode ≡ c
        → o ≡ victim
        → let r =
            if c
            then grants (update_group_lock_mode (q.request_queue ++ request my_id mode true ∷ []))
            else elim o as (λ _. Attempt) [
              | some txn ↦ aborts txn deadlock_prevention q
              | none ↦
                  waits
                    (record q { request_queue = q.request_queue ++ request my_id mode false ∷ [] })
            ] in
          Decided my_id mode victim q r × QueueInv kind (queue_after r)
    unfolding update_group_lock_mode
    tried true o c e =
        ((ground (arith, exact, c), refl), grant-QueueInv kind q v my_id mode asked c)
    tried false none c e =
        ((ground (arith, exact, c), sym e, refl), waiting-QueueInv kind q v my_id mode asked)
    tried false (some txn) c e = ((ground (arith, exact, c), sym e, refl, refl), v)

    -- The waiting loop grants the lock exactly where no granted request on the item excludes it, the
    -- transaction's own included. Otherwise it waits, or throws for the victim of a deadlock. The
    -- queue stays well-formed and peaceful.
    pub try_lock-Decided :
        Decided my_id mode victim q (try_lock my_id mode victim q)
        × QueueInv kind (queue_after (try_lock my_id mode victim q))
    unfolding try_lock
    try_lock-Decided = tried (is_compatible mode q.group_lock_mode) victim refl refl

    entered :
        (h : Holding)
        → Upgraded kind my_id (others_granted my_id q.request_queue) q.request_queue h
        → QueueInv kind (
            queue_after (elim h [
              | covered ↦ grants q
              | conflicting ↦ aborts my_id upgrade_conflict q
              | upgraded requests' ↦ grants (update_group_lock_mode requests')
              | uncovered ↦ try_lock my_id mode victim q
            ]))
    entered covered u = v
    entered conflicting u = v
    entered (upgraded requests') u = upgraded-QueueInv kind my_id q.request_queue requests' u
    entered uncovered u = try_lock-Decided.1

    lock_common-QueueInv : QueueInv kind (queue_after (lock_common my_id mode victim q))
    unfolding lock_common
    lock_common-QueueInv =
        entered (holding my_id mode (others_granted my_id q.request_queue) q.request_queue) (
          holding-Upgraded kind my_id mode (others_granted my_id q.request_queue) asked
            q.request_queue v.modes)

  wake-QueueInv :
      (q : LockRequestQueue) (marked : Bool)
      → QueueInv kind q
      → QueueInv kind (queue_after (wake my_id mode marked victim q))
  unfolding wake
  wake-QueueInv q true v = unwaiting-QueueInv kind q v my_id
  wake-QueueInv q false v = (try_lock-Decided _ (unwaiting-QueueInv kind q v my_id)).1

unlock-QueueInv :
    (kind : LockDataType) (my_id : ℕ) (q : LockRequestQueue)
    → QueueInv kind q
    → QueueInv kind (unlock my_id q).1
unfolding unlock
unlock-QueueInv kind my_id q v = elim (Bool-cases (holds_granted my_id q.request_queue)) [
  | inl y ↦ rw (y) (released-QueueInv kind q v my_id)
  | inr n ↦ rw (n) v
]

-- What threads do to the queue of one item.
pub data LockEvent : Type 0 where
  locks : ℕ → LockMode → Option ℕ → LockEvent
  wakes : ℕ → LockMode → Bool → Option ℕ → LockEvent
  unlocks : ℕ → LockEvent

pub event_step : LockRequestQueue → LockEvent → LockRequestQueue
event_step q (locks my_id mode victim) = queue_after (lock_common my_id mode victim q)
event_step q (wakes my_id mode marked victim) = queue_after (wake my_id mode marked victim q)
event_step q (unlocks my_id) = (unlock my_id q).1

pub events : LockRequestQueue → List LockEvent → LockRequestQueue
events q [] = q
events q (e ∷ es) = events (event_step q e) es

-- Every event asks for a mode of the item's kind.
abbrev pub event_asks : LockDataType → LockEvent → Bool
event_asks kind (locks _ mode _) = requested kind mode
event_asks kind (wakes _ mode _ _) = requested kind mode
event_asks kind (unlocks _) = true

abbrev pub events_ask : LockDataType → List LockEvent → Bool
events_ask kind [] = true
events_ask kind (e ∷ es) = event_asks kind e && events_ask kind es

event_step-QueueInv :
    (kind : LockDataType) (q : LockRequestQueue) (e : LockEvent)
    → event_asks kind e ≡ true
    → QueueInv kind q
    → QueueInv kind (event_step q e)
unfolding event_step
event_step-QueueInv kind q (locks my_id mode victim) h v =
    lock_common-QueueInv kind my_id mode victim h q v
event_step-QueueInv kind q (wakes my_id mode marked victim) h v =
    wake-QueueInv kind my_id mode victim h q marked v
event_step-QueueInv kind q (unlocks my_id) h v = unlock-QueueInv kind my_id q v

events-QueueInv :
    (kind : LockDataType) (q : LockRequestQueue) (es : List LockEvent)
    → events_ask kind es ≡ true
    → QueueInv kind q
    → QueueInv kind (events q es)
unfolding events
events-QueueInv kind q [] h v = v
events-QueueInv kind q (e ∷ es) h v =
    events-QueueInv kind (event_step q e) es (ground arith)
      (event_step-QueueInv kind q e (ground arith) v)

abbrev pub new_queue : LockRequestQueue
new_queue = record { request_queue = []; group_lock_mode = non_lock }

pub new_queue-QueueInv : (kind : LockDataType) → QueueInv kind new_queue
unfolding group_mode_of strongest
new_queue-QueueInv kind = record { modes = refl; group = refl; apart = refl; peace = refl }

-- From an empty queue, after any calls, wake-ups and unlocks of any transactions that ask for the
-- modes of the item's kind, no two transactions hold locks that exclude one another, and the group's
-- mode is that of the granted requests.
pub events-Peaceful :
    (kind : LockDataType) (es : List LockEvent)
    → events_ask kind es ≡ true
    → (peaceful (events new_queue es).request_queue ≡ true)
      × ((events new_queue es).group_lock_mode ≡ group_mode_of (events new_queue es).request_queue)
events-Peaceful kind es h =
    let v = events-QueueInv kind new_queue es h (new_queue-QueueInv kind) in (v.peace, v.group)
