-- ===== src/Txn/Deadlock.antt =====
-- `find_deadlock_victim` of rmdb/src/transaction/concurrency/lock_manager.cpp: the wait-for graph of
-- all queues, the search for a cycle, and the choice of the victim. A set of ids is a list. `none` in
-- place of a victim is INVALID_TXN_ID.
pub mod Graph
pub mod Edges
pub mod Reach
pub mod Visit
pub mod Verdict
pub mod Stray
use aidv.Prelude.{
  ℕ, zero, suc, Bool, true, false, Option, none, some, List, [], ◌∷◌, ◌++◌, ltb, ◌==◌,
  if◌then◌else◌, length, listed, insert_id, without,
}
use aidv.Txn.Lock.{LockRequest, LockRequestQueue, blockers}

-- `wait_for`, from each transaction to those that it waits for.
abbrev pub Graph : Type 0
Graph = ℕ → List ℕ

abbrev pub no_edges : Graph
no_edges id = []

unfoldable pub add_edge : ℕ → ℕ → Graph → Graph
add_edge id holder wait_for u = if u == id then insert_id holder (wait_for u) else wait_for u

abbrev pub held_by : List LockRequest → List ℕ
held_by [] = []
held_by (r ∷ requests) =
    let rest = held_by requests in if r.granted then insert_id r.txn_id rest else rest

-- The edges of one request that waits.
unfoldable pub wait_edges : ℕ → List ℕ → Graph → Graph
wait_edges id [] wait_for = wait_for
wait_edges id (holder ∷ holders) wait_for =
    wait_edges id holders (if holder == id then wait_for else add_edge id holder wait_for)

unfoldable pub queue_edges : List ℕ → List LockRequest → Graph → Graph
queue_edges holders [] wait_for = wait_for
queue_edges holders (r ∷ requests) wait_for =
    queue_edges holders requests
      (if r.granted then wait_for else wait_edges r.txn_id holders wait_for)

-- The queues of all shards.
unfoldable pub table_edges : List LockRequestQueue → Graph → Graph
table_edges [] wait_for = wait_for
table_edges (q ∷ queues) wait_for =
    table_edges queues (queue_edges (held_by q.request_queue) q.request_queue wait_for)

-- The edges that the requestor would have.
unfoldable pub temporary_edges : ℕ → List ℕ → Graph → Graph
temporary_edges requestor [] wait_for = wait_for
temporary_edges requestor (blocker ∷ ids) wait_for =
    temporary_edges requestor ids (add_edge requestor blocker wait_for)

pub record Search : Type 0 where
  pub visited : List ℕ
  pub rec_stack : List ℕ

-- `dfs` returns true with the members of the cycle, or false.
pub data Outcome : Type 0 where
  cycle : List ℕ → Outcome
  clear : Search → Outcome

abbrev pub go_on : Option Outcome → (Search → Option Outcome) → Option Outcome
go_on none rest = none
go_on (some (cycle members)) rest = some (cycle members)
go_on (some (clear s)) rest = rest s

-- The loop over the transactions that one waits for.
unfoldable pub each : (ℕ → Search → Option Outcome) → List ℕ → Search → Option Outcome
each dfs [] s = some (clear s)
each dfs (v ∷ vs) s =
    let rest = go_on (if listed v s.visited then some (clear s) else dfs v s) (each dfs vs) in
    if listed v s.rec_stack then some (cycle (v ∷ without v s.rec_stack)) else rest

abbrev pub enter : ℕ → Search → Search
enter u s = record { visited = insert_id u s.visited; rec_stack = insert_id u s.rec_stack }

abbrev pub leave : ℕ → Option Outcome → Option Outcome
leave u none = none
leave u (some (cycle members)) = some (cycle members)
leave u (some (clear s)) = some (clear (record s { rec_stack = without u s.rec_stack }))

-- `none` is the end of the fuel.
unfoldable pub dfs : Graph → ℕ → ℕ → Search → Option Outcome
dfs wait_for zero u s = none
dfs wait_for (suc fuel) u s = leave u (each (dfs wait_for fuel) (wait_for u) (enter u s))

-- The loop that keeps the greatest id.
abbrev pub youngest : Option ℕ → List ℕ → Option ℕ
youngest victim [] = victim
youngest victim (txn ∷ txns) =
    youngest (elim victim [ none ↦ some txn | some id ↦ if ltb id txn then some txn else some id ])
      txns

abbrev pub verdict : Option Outcome → Option (Option ℕ)
verdict none = none
verdict (some (cycle members)) = some (youngest none members)
verdict (some (clear s)) = some none

-- The graph with the edges that the requestor would have.
unfoldable pub wait_for_graph : ℕ → List ℕ → List LockRequestQueue → Graph
wait_for_graph requestor ids queues = temporary_edges requestor ids (table_edges queues no_edges)

abbrev pub unsearched : Search
unsearched = record { visited = []; rec_stack = [] }

-- All transactions of the queues.
abbrev pub request_ids : List LockRequest → List ℕ
request_ids [] = []
request_ids (r ∷ requests) = r.txn_id ∷ request_ids requests

abbrev pub all_ids : List LockRequestQueue → List ℕ
all_ids [] = []
all_ids (q ∷ queues) = request_ids q.request_queue ++ all_ids queues

-- A transaction is entered once, so their number is fuel enough.
unfoldable pub search_fuel : ℕ → List LockRequest → List LockRequestQueue → ℕ
search_fuel requestor queue queues = suc (suc (length (request_ids queue ++ all_ids queues)))

unfoldable pub find_deadlock_victim :
    ℕ → List LockRequest → List LockRequestQueue → Option (Option ℕ)
find_deadlock_victim requestor queue queues = elim (blockers requestor queue) [
  | [] ↦ some none
  | blocker ∷ ids ↦ verdict (
      dfs (wait_for_graph requestor (blocker ∷ ids) queues) (search_fuel requestor queue queues)
        requestor unsearched)
]
