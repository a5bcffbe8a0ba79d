-- ===== src/Txn/Lock/Peace.antt =====
-- Two transactions never hold locks on one item that exclude one another.
use aidv.Prelude.{
  ℕ, ◌≡◌, refl, sym, ◌∙◌, Bool, true, false, ◌&&◌, ◌||◌, not, List, [], ◌∷◌, ◌++◌, arith, ◌==◌,
}
use aidv.Txn.Lock.{
  LockMode, shared, exclusive, intention_shared, intention_exclusive, s_ix, gap, next_key,
  insert_intention, LockRequest, LockRequestQueue, has, group_mode_of, is_compatible, mode_eq,
  request, remove_request, update_group_lock_mode,
}
use aidv.Txn.Lock.Group.{
  LockDataType, requested, conflicts, all_requested, conflicts_any, is_compatible-conflicts_any,
  eq_of-mode_eq,
}

-- Both requests are granted, to different transactions, and exclude one another.
abbrev pub clash : LockRequest → LockRequest → Bool
clash a b =
    a.granted && b.granted && not (a.txn_id == b.txn_id) && conflicts a.lock_mode b.lock_mode

abbrev pub clash_any : LockRequest → List LockRequest → Bool
clash_any a [] = false
clash_any a (b ∷ requests) = clash a b || clash_any a requests

abbrev pub peaceful : List LockRequest → Bool
peaceful [] = true
peaceful (a ∷ requests) = not (clash_any a requests) && peaceful requests

pub record QueueInv (kind : LockDataType) (q : LockRequestQueue) : Type 0 where
  pub modes : all_requested kind q.request_queue ≡ true
  pub group : q.group_lock_mode ≡ group_mode_of q.request_queue
  pub apart : (has gap q.request_queue && has insert_intention q.request_queue) ≡ false
  pub peace : peaceful q.request_queue ≡ true

conflicts_symm : (a b : LockMode) → conflicts a b ≡ conflicts b a
unfolding conflicts
conflicts_symm a b = ground arith

clash_symm : (a b : LockRequest) → clash a b ≡ clash b a
clash_symm a b = ground (arith, conflicts_symm a.lock_mode b.lock_mode)

clash_any-append :
    (a b : LockRequest) (requests : List LockRequest)
    → clash_any a (requests ++ b ∷ []) ≡ (clash_any a requests || clash a b)
clash_any-append a b [] = ground arith
clash_any-append a b (r ∷ requests) = ground (arith, clash_any-append a b requests)

peaceful-append :
    (b : LockRequest) (requests : List LockRequest)
    → peaceful (requests ++ b ∷ []) ≡ (peaceful requests && not (clash_any b requests))
peaceful-append b [] = ground arith
peaceful-append b (r ∷ requests) =
    ground (arith, peaceful-append b requests, clash_any-append r b requests, clash_symm r b)

has-append :
    (mode : LockMode) (b : LockRequest) (requests : List LockRequest)
    → has mode (requests ++ b ∷ []) ≡ (has mode requests || (b.granted && mode_eq b.lock_mode mode))
has-append mode b [] = ground arith
has-append mode b (r ∷ requests) = ground (arith, has-append mode b requests)

all_requested-append :
    (kind : LockDataType) (b : LockRequest) (requests : List LockRequest)
    → all_requested kind (requests ++ b ∷ [])
      ≡ (all_requested kind requests && requested kind b.lock_mode)
all_requested-append kind b [] = ground arith
all_requested-append kind b (r ∷ requests) = ground (arith, all_requested-append kind b requests)

clash_any-conflicts_any :
    (a : LockRequest) (requests : List LockRequest)
    → conflicts_any a.lock_mode requests ≡ false
    → clash_any a requests ≡ false
clash_any-conflicts_any a [] h = refl
clash_any-conflicts_any a (r ∷ requests) h = ground (arith, clash_any-conflicts_any a requests)

pub clash_any-waiting :
    (a : LockRequest) (requests : List LockRequest)
    → a.granted ≡ false
    → clash_any a requests ≡ false
clash_any-waiting a [] h = refl
clash_any-waiting a (r ∷ requests) h = ground (arith, clash_any-waiting a requests)

has-conflicts_any :
    (mode other : LockMode) (requests : List LockRequest)
    → conflicts mode other ≡ true
    → conflicts_any mode requests ≡ false
    → has other requests ≡ false
has-conflicts_any mode other [] c h = refl
has-conflicts_any mode other (r ∷ requests) c h =
    ground (arith, has-conflicts_any mode other requests, eq_of-mode_eq r.lock_mode other)

-- What is taken out of a queue takes nothing away from its peace.
module _ (my_id : ℕ) (granted : Bool) where
  clash_any-remove :
      (a : LockRequest) (requests : List LockRequest)
      → clash_any a requests ≡ false
      → clash_any a (remove_request my_id granted requests) ≡ false
  clash_any-remove a [] h = refl
  clash_any-remove a (r ∷ requests) h = ground (arith, clash_any-remove a requests)

  peaceful-remove :
      (requests : List LockRequest)
      → peaceful requests ≡ true
      → peaceful (remove_request my_id granted requests) ≡ true
  peaceful-remove [] h = refl
  peaceful-remove (r ∷ requests) h =
      ground (arith, peaceful-remove requests, clash_any-remove r requests)

  all_requested-remove :
      (kind : LockDataType) (requests : List LockRequest)
      → all_requested kind requests ≡ true
      → all_requested kind (remove_request my_id granted requests) ≡ true
  all_requested-remove kind [] h = refl
  all_requested-remove kind (r ∷ requests) h = ground (arith, all_requested-remove kind requests)

  has-remove :
      (mode : LockMode) (requests : List LockRequest)
      → has mode requests ≡ false
      → has mode (remove_request my_id granted requests) ≡ false
  has-remove mode [] h = refl
  has-remove mode (r ∷ requests) h = ground (arith, has-remove mode requests)

-- The group's mode is a function of the flags.
group_mode_of-has :
    (requests requests' : List LockRequest)
    → ((mode : LockMode) → has mode requests ≡ has mode requests')
    → group_mode_of requests ≡ group_mode_of requests'
unfolding group_mode_of
group_mode_of-has requests requests' h =
    rw
      (
        h exclusive,
        h next_key,
        h s_ix,
        h shared,
        h intention_exclusive,
        h gap,
        h intention_shared,
        h insert_intention,
      )
      refl

has-waiting :
    (my_id : ℕ) (mode other : LockMode) (requests : List LockRequest)
    → has other (requests ++ request my_id mode false ∷ []) ≡ has other requests
unfolding request
has-waiting my_id mode other requests =
    ground (arith, has-append other (request my_id mode false) requests)

has-remove_waiting :
    (my_id : ℕ) (mode : LockMode) (requests : List LockRequest)
    → has mode (remove_request my_id false requests) ≡ has mode requests
has-remove_waiting my_id mode [] = refl
has-remove_waiting my_id mode (r ∷ requests) =
    ground (arith, has-remove_waiting my_id mode requests)

module _ (kind : LockDataType) (q : LockRequestQueue) (v : QueueInv kind q) (my_id : ℕ) where
  module _ (mode : LockMode) (asked : requested kind mode ≡ true) where
    unopposed :
        is_compatible mode q.group_lock_mode ≡ true → conflicts_any mode q.request_queue ≡ false
    unopposed c = ground (
      arith,
      is_compatible-conflicts_any kind mode q.request_queue asked v.modes v.apart,
      v.group,
    )

    still_apart :
        is_compatible mode q.group_lock_mode ≡ true
        → (has gap (q.request_queue ++ request my_id mode true ∷ [])
            && has insert_intention (q.request_queue ++ request my_id mode true ∷ []))
          ≡ false
    unfolding request conflicts mode_eq
    still_apart c = ground (
      arith,
      has-append gap (request my_id mode true) q.request_queue,
      has-append insert_intention (request my_id mode true) q.request_queue,
      has-conflicts_any gap insert_intention q.request_queue refl,
      has-conflicts_any insert_intention gap q.request_queue refl,
      unopposed c,
      v.apart,
    )

    pub grant-QueueInv :
        is_compatible mode q.group_lock_mode ≡ true
        → QueueInv kind (update_group_lock_mode (q.request_queue ++ request my_id mode true ∷ []))
    unfolding update_group_lock_mode request
    grant-QueueInv c = record {
      modes =
          ground
            (arith, all_requested-append kind (request my_id mode true) q.request_queue, v.modes);
      group = refl;
      apart = still_apart c;
      peace = ground (
        arith,
        peaceful-append (request my_id mode true) q.request_queue,
        clash_any-conflicts_any (request my_id mode true) q.request_queue (unopposed c),
        v.peace,
      );
    }

    pub waiting-QueueInv :
        QueueInv kind
          (record q { request_queue = q.request_queue ++ request my_id mode false ∷ [] })
    unfolding request
    waiting-QueueInv = record {
      modes =
          ground
            (arith, all_requested-append kind (request my_id mode false) q.request_queue, v.modes);
      group =
          v.group
          ∙ group_mode_of-has q.request_queue (q.request_queue ++ request my_id mode false ∷ [])
              (λ other. sym (has-waiting my_id mode other q.request_queue));
      apart = ground (
        arith,
        has-waiting my_id mode gap q.request_queue,
        has-waiting my_id mode insert_intention q.request_queue,
        v.apart,
      );
      peace = ground (
        arith,
        peaceful-append (request my_id mode false) q.request_queue,
        clash_any-waiting (request my_id mode false) q.request_queue refl,
        v.peace,
      );
    }

  pub unwaiting-QueueInv :
      QueueInv kind (record q { request_queue = remove_request my_id false q.request_queue })
  unwaiting-QueueInv = record {
    modes = all_requested-remove my_id false kind q.request_queue v.modes;
    group =
        v.group
        ∙ group_mode_of-has q.request_queue (remove_request my_id false q.request_queue)
            (λ mode. sym (has-remove_waiting my_id mode q.request_queue));
    apart = ground (
      arith,
      has-remove_waiting my_id gap q.request_queue,
      has-remove_waiting my_id insert_intention q.request_queue,
      v.apart,
    );
    peace = peaceful-remove my_id false q.request_queue v.peace;
  }

  pub released-QueueInv :
      QueueInv kind (update_group_lock_mode (remove_request my_id true q.request_queue))
  unfolding update_group_lock_mode
  released-QueueInv = record {
    modes = all_requested-remove my_id true kind q.request_queue v.modes;
    group = refl;
    apart = ground (
      arith,
      has-remove my_id true gap q.request_queue,
      has-remove my_id true insert_intention q.request_queue,
      v.apart,
    );
    peace = peaceful-remove my_id true q.request_queue v.peace;
  }
