-- ===== src/Txn/Lock.antt =====
-- rmdb/src/transaction/concurrency/lock_manager.{h,cpp}: the queue of lock requests on one item.
-- The calls hold the latch of the item's shard until they wait or return, so each part of
-- `lock_common` between two waits is one step. `victim` is what `find_deadlock_victim` has found.
pub mod Group
pub mod Peace
pub mod Upgrade
pub mod Calls
use aidv.Prelude.{
  ℕ, zero, suc, ◌≡◌, Bool, true, false, ◌&&◌, ◌||◌, not, Option, none, some, List, [], ◌∷◌, ◌++◌,
  ◌==◌, if◌then◌else◌, get_or,
}

pub data LockMode : Type 0 where
  shared exclusive intention_shared intention_exclusive s_ix gap next_key insert_intention :
      LockMode

pub data GroupLockMode : Type 0 where
  non_lock group_is group_ix group_s group_x group_six group_gap group_next_key group_insert_int :
      GroupLockMode

-- `static_cast<int>`
abbrev pub mode_index : LockMode → ℕ
mode_index shared = 0
mode_index exclusive = 1
mode_index intention_shared = 2
mode_index intention_exclusive = 3
mode_index s_ix = 4
mode_index gap = 5
mode_index next_key = 6
mode_index insert_intention = 7

abbrev pub group_index : GroupLockMode → ℕ
group_index non_lock = 0
group_index group_is = 1
group_index group_ix = 2
group_index group_s = 3
group_index group_x = 4
group_index group_six = 5
group_index group_gap = 6
group_index group_next_key = 7
group_index group_insert_int = 8

-- `==` of two modes
unfoldable pub mode_eq : LockMode → LockMode → Bool
mode_eq a b = mode_index a == mode_index b

pub record LockRequest : Type 0 where
  pub txn_id : ℕ
  pub lock_mode : LockMode
  pub granted : Bool

pub record LockRequestQueue : Type 0 where
  pub request_queue : List LockRequest
  pub group_lock_mode : GroupLockMode

abbrev y : Bool
y = true

abbrev n : Bool
n = false

-- The columns are NL, IS, IX, S, X, SIX, GAP, NEXT_KEY and INSERT_INT.
abbrev pub compat : List (List Bool)
compat =
    (y ∷ y ∷ n ∷ y ∷ n ∷ n ∷ n ∷ n ∷ n ∷ [])
    ∷ (y ∷ n ∷ n ∷ n ∷ n ∷ n ∷ n ∷ n ∷ n ∷ [])
    ∷ (y ∷ y ∷ y ∷ y ∷ n ∷ y ∷ y ∷ n ∷ y ∷ [])
    ∷ (y ∷ y ∷ y ∷ n ∷ n ∷ n ∷ y ∷ n ∷ y ∷ [])
    ∷ (y ∷ y ∷ n ∷ n ∷ n ∷ n ∷ n ∷ n ∷ n ∷ [])
    ∷ (y ∷ y ∷ y ∷ y ∷ n ∷ n ∷ y ∷ n ∷ n ∷ [])
    ∷ (y ∷ n ∷ n ∷ n ∷ n ∷ n ∷ n ∷ n ∷ n ∷ [])
    ∷ (y ∷ y ∷ y ∷ y ∷ n ∷ n ∷ n ∷ n ∷ y ∷ [])
    ∷ []

pub is_compatible : LockMode → GroupLockMode → Bool
is_compatible request_mode group_mode =
    get_or (get_or compat (mode_index request_mode) []) (group_index group_mode) false

-- Whether a request for the mode is granted: the flags of `update_group_lock_mode`.
abbrev pub has : LockMode → List LockRequest → Bool
has mode [] = false
has mode (r ∷ requests) = if r.granted && mode_eq r.lock_mode mode then true else has mode requests

-- The strongest lock wins. The arguments are the flags has_X, has_NEXT_KEY, has_SIX, has_S, has_IX,
-- has_GAP, has_IS and has_INSERT_INT.
unfoldable pub strongest : Bool → Bool → Bool → Bool → Bool → Bool → Bool → Bool → GroupLockMode
strongest has_x has_next_key has_six has_s has_ix has_gap has_is has_insert_int =
    if has_x
    then group_x
    else if has_next_key
    then group_next_key
    else if has_six
    then group_six
    else if has_s && has_ix
    then group_six
    else if has_s
    then group_s
    else if has_gap
    then group_gap
    else if has_ix
    then group_ix
    else if has_is
    then group_is
    else if has_insert_int
    then group_insert_int
    else non_lock

unfoldable pub group_mode_of : List LockRequest → GroupLockMode
group_mode_of requests =
    strongest (has exclusive requests) (has next_key requests) (has s_ix requests)
      (has shared requests) (has intention_exclusive requests) (has gap requests)
      (has intention_shared requests) (has insert_intention requests)

unfoldable pub update_group_lock_mode : List LockRequest → LockRequestQueue
update_group_lock_mode requests = record {
  request_queue = requests;
  group_lock_mode = group_mode_of requests;
}

-- Whether a transaction other than this one has a granted request.
abbrev pub others_granted : ℕ → List LockRequest → Bool
others_granted my_id [] = false
others_granted my_id (r ∷ requests) =
    if not (r.txn_id == my_id) && r.granted then true else others_granted my_id requests

-- What the transaction's own granted requests say.
pub data Holding : Type 0 where
  covered conflicting uncovered : Holding
  upgraded : List LockRequest → Holding

-- Whether a granted request for the first mode also serves a request for the second.
pub covers : LockMode → LockMode → Bool
covers held wanted =
    if mode_eq held wanted || mode_eq held exclusive
    then true
    else if mode_eq held s_ix
    then mode_eq wanted shared
      || mode_eq wanted intention_exclusive
      || mode_eq wanted intention_shared
    else mode_eq held intention_exclusive && mode_eq wanted intention_shared

pub is_upgrade : LockMode → LockMode → Bool
is_upgrade held wanted = mode_eq held shared && mode_eq wanted exclusive

abbrev pub after : LockRequest → Holding → Holding
after r covered = covered
after r conflicting = conflicting
after r uncovered = uncovered
after r (upgraded requests) = upgraded (r ∷ requests)

-- The first loop of `lock_common`. `others` is whether another transaction has a granted request.
pub holding : ℕ → LockMode → Bool → List LockRequest → Holding
holding my_id mode others [] = uncovered
holding my_id mode others (r ∷ requests) =
    let rest = after r (holding my_id mode others requests) in
    if r.txn_id == my_id && r.granted
    then (if is_upgrade r.lock_mode mode
        then (if others
            then conflicting
            else upgraded (record r { lock_mode = exclusive } ∷ requests))
        else (if covers r.lock_mode mode then covered else rest))
    else rest

pub data Reason : Type 0 where
  upgrade_conflict deadlock_prevention : Reason

-- The call returns true, throws for a transaction, or waits on the queue.
pub data Attempt : Type 0 where
  grants waits : LockRequestQueue → Attempt
  aborts : ℕ → Reason → LockRequestQueue → Attempt

unfoldable pub request : ℕ → LockMode → Bool → LockRequest
request my_id mode granted = record { txn_id = my_id; lock_mode = mode; granted = granted }

-- The test of the waiting loop, with what follows it up to the next wait.
pub try_lock : ℕ → LockMode → Option ℕ → LockRequestQueue → Attempt
try_lock my_id mode victim queue =
    if is_compatible mode queue.group_lock_mode
    then grants (update_group_lock_mode (queue.request_queue ++ request my_id mode true ∷ []))
    else elim victim [
      | some txn ↦ aborts txn deadlock_prevention queue
      | none ↦
          waits
            (record queue { request_queue = queue.request_queue ++ request my_id mode false ∷ [] })
    ]

pub lock_common : ℕ → LockMode → Option ℕ → LockRequestQueue → Attempt
lock_common my_id mode victim queue =
    let requests = queue.request_queue in
    elim (holding my_id mode (others_granted my_id requests) requests) [
      | covered ↦ grants queue
      | conflicting ↦ aborts my_id upgrade_conflict queue
      | upgraded requests' ↦ grants (update_group_lock_mode requests')
      | uncovered ↦ try_lock my_id mode victim queue
    ]

-- The first request of the transaction that is granted, or is not, goes.
abbrev pub remove_request : ℕ → Bool → List LockRequest → List LockRequest
remove_request my_id granted [] = []
remove_request my_id granted (r ∷ requests) =
    if r.txn_id == my_id && (if granted then r.granted else not r.granted)
    then requests
    else r ∷ remove_request my_id granted requests

-- What `lock_common` does when the wait is over. `marked`: the detector chose the transaction.
pub wake : ℕ → LockMode → Bool → Option ℕ → LockRequestQueue → Attempt
wake my_id mode marked victim queue =
    let queue' : LockRequestQueue = record queue {
      request_queue = remove_request my_id false queue.request_queue;
    } in
    if marked then aborts my_id deadlock_prevention queue' else try_lock my_id mode victim queue'

abbrev pub holds_granted : ℕ → List LockRequest → Bool
holds_granted my_id [] = false
holds_granted my_id (r ∷ requests) =
    if r.txn_id == my_id && r.granted then true else holds_granted my_id requests

pub unlock : ℕ → LockRequestQueue → Bool × LockRequestQueue
unlock txn_id queue =
    if holds_granted txn_id queue.request_queue
    then (true, update_group_lock_mode (remove_request txn_id true queue.request_queue))
    else (false, queue)

-- The transactions that block a requestor in `find_deadlock_victim`, which finds no victim where
-- there is none.
unfoldable pub blockers : ℕ → List LockRequest → List ℕ
blockers requestor [] = []
blockers requestor (r ∷ requests) =
    let rest = blockers requestor requests in
    if r.granted && not (r.txn_id == requestor) then r.txn_id ∷ rest else rest
