-- ===== src/Txn/Tests/Deadlocks.antt =====
-- Runs of the search for a deadlock.
use aidv.Prelude.{ℕ, listed, ◌&&◌, ◌||◌, ◌≡◌, refl, Option, some, List, [], ◌∷◌, ◌==◌, arith}
use aidv.Txn.Lock.{LockRequestQueue, blockers}
use aidv.Txn.Deadlock.{
  find_deadlock_victim, search_fuel, dfs, each, wait_for_graph, temporary_edges, table_edges,
  queue_edges, wait_edges, add_edge,
}
use aidv.Txn.Deadlock.Reach.{Reaches}
use aidv.Txn.Deadlock.Verdict.{Judged, find_deadlock_victim-Judged}
use aidv.Txn.Deadlock.Stray.{waits_behind, crossed, stray_victim}
use aidv.Txn.Deadlock.Edges.{waits_for, wait_for_graph-waits_for}

-- Transaction 1 asks for the lock of 2, which waits for the lock of 1.
abbrev others : List LockRequestQueue
others = waits_behind 1 2 ∷ []

abbrev asked_queue : LockRequestQueue
asked_queue = waits_behind 2 3

asked_queue-blockers : blockers 1 asked_queue.request_queue ≡ 2 ∷ []
unfolding blockers
asked_queue-blockers = refl

find_deadlock_victim_lem :
    find_deadlock_victim 1 asked_queue.request_queue (asked_queue ∷ others) ≡ some (some 2)
unfolding find_deadlock_victim search_fuel dfs each wait_for_graph temporary_edges table_edges
    queue_edges wait_edges add_edge blockers
find_deadlock_victim_lem = refl

find_deadlock_victim-Judged_example :
    (victim : Option ℕ) × (find_deadlock_victim 1 asked_queue.request_queue (asked_queue ∷ others)
      ≡ some victim)
    × Judged (wait_for_graph 1 (2 ∷ []) (asked_queue ∷ others)) 1 victim
find_deadlock_victim-Judged_example =
    find_deadlock_victim-Judged 1 asked_queue.request_queue (asked_queue ∷ others) 2 []
      asked_queue-blockers

stray_victim_example :
    (find_deadlock_victim 9 (waits_behind 1 2).request_queue (crossed 1 2) ≡ some (some 9))
    × (¬ Reaches (wait_for_graph 9 (1 ∷ []) (crossed 1 2)) 9 9)
    × Reaches (wait_for_graph 9 (1 ∷ []) (crossed 1 2)) 1 1
stray_victim_example = stray_victim 9 1 2 (omega arith) (omega arith) refl

wait_for_graph-waits_for_example :
    listed 3 (wait_for_graph 1 (2 ∷ []) (asked_queue ∷ others) 2)
    ≡ ((2 == 1 && listed 3 (2 ∷ [])) || waits_for 2 3 (asked_queue ∷ others))
wait_for_graph-waits_for_example = wait_for_graph-waits_for 1 (2 ∷ []) (asked_queue ∷ others) 2 3
