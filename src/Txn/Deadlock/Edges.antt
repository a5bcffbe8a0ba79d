-- ===== src/Txn/Deadlock/Edges.antt =====
-- What the wait-for graph says of the queues.
use aidv.Prelude.{
  ℕ, ◌≡◌, refl, Bool, false, ◌&&◌, ◌||◌, not, List, [], ◌∷◌, ◌==◌, arith, inl, inr, Bool-cases,
  listed, listed-insert_id,
}
use aidv.Txn.Lock.{LockRequest, LockRequestQueue}
use aidv.Txn.Deadlock.{
  Graph, no_edges, add_edge, held_by, wait_edges, queue_edges, table_edges, temporary_edges,
  wait_for_graph,
}

-- The transaction has a request that is not granted, and one that is.
abbrev pub waits_in : ℕ → List LockRequest → Bool
waits_in id [] = false
waits_in id (r ∷ requests) = (not r.granted && r.txn_id == id) || waits_in id requests

abbrev pub holds_in : ℕ → List LockRequest → Bool
holds_in id [] = false
holds_in id (r ∷ requests) = (r.granted && r.txn_id == id) || holds_in id requests

-- In some queue the first waits where the second, another transaction, holds a lock.
abbrev pub waits_for : ℕ → ℕ → List LockRequestQueue → Bool
waits_for x y [] = false
waits_for x y (q ∷ queues) =
    (waits_in x q.request_queue && holds_in y q.request_queue && not (x == y))
    || waits_for x y queues

add_edge-listed :
    (id holder : ℕ) (g : Graph) (x y : ℕ)
    → listed y (add_edge id holder g x) ≡ ((x == id && holder == y) || listed y (g x))
unfolding add_edge
add_edge-listed id holder g x y = ground (arith, listed-insert_id y holder (g x))

held_by-listed :
    (y : ℕ) (requests : List LockRequest) → listed y (held_by requests) ≡ holds_in y requests
held_by-listed y [] = refl
held_by-listed y (r ∷ requests) =
    ground (arith, held_by-listed y requests, listed-insert_id y r.txn_id (held_by requests))

temporary_edges-listed :
    (requestor : ℕ) (ids : List ℕ) (g : Graph) (x y : ℕ)
    → listed y (temporary_edges requestor ids g x)
      ≡ ((x == requestor && listed y ids) || listed y (g x))
unfolding temporary_edges
temporary_edges-listed requestor [] g x y = ground arith
temporary_edges-listed requestor (b ∷ ids) g x y = ground (
  arith,
  temporary_edges-listed requestor ids (add_edge requestor b g) x y,
  add_edge-listed requestor b g x y,
)

wait_edges-listed :
    (id : ℕ) (holders : List ℕ) (g : Graph) (x y : ℕ)
    → listed y (wait_edges id holders g x)
      ≡ ((x == id && listed y holders && not (x == y)) || listed y (g x))
unfolding wait_edges
wait_edges-listed id [] g x y = ground arith
wait_edges-listed id (h ∷ hs) g x y = elim (Bool-cases (h == id)) [
  | inl k ↦ rw k (ground (arith, wait_edges-listed id hs g x y, k))
  | inr n ↦
      rw n (
        ground
          (arith, wait_edges-listed id hs (add_edge id h g) x y, add_edge-listed id h g x y, n))
]

queue_edges-listed :
    (holders : List ℕ) (requests : List LockRequest) (g : Graph) (x y : ℕ)
    → listed y (queue_edges holders requests g x)
      ≡ ((waits_in x requests && listed y holders && not (x == y)) || listed y (g x))
unfolding queue_edges
queue_edges-listed holders [] g x y = ground arith
queue_edges-listed holders (r ∷ requests) g x y = elim (Bool-cases r.granted) [
  | inl k ↦ rw k (ground (arith, queue_edges-listed holders requests g x y, k))
  | inr n ↦ rw n (
      ground (
        arith,
        queue_edges-listed holders requests (wait_edges r.txn_id holders g) x y,
        wait_edges-listed r.txn_id holders g x y,
        n,
      ))
]

table_edges-listed :
    (queues : List LockRequestQueue) (g : Graph) (x y : ℕ)
    → listed y (table_edges queues g x) ≡ (waits_for x y queues || listed y (g x))
unfolding table_edges
table_edges-listed [] g x y = ground arith
table_edges-listed (q ∷ queues) g x y = ground (
  arith,
  table_edges-listed queues (queue_edges (held_by q.request_queue) q.request_queue g) x y,
  queue_edges-listed (held_by q.request_queue) q.request_queue g x y,
  held_by-listed y q.request_queue,
)

-- The wait-for graph has an edge exactly where in some queue the one transaction waits and the other
-- holds a lock, and from the requestor to its blockers.
pub wait_for_graph-waits_for :
    (requestor : ℕ) (ids : List ℕ) (queues : List LockRequestQueue) (x y : ℕ)
    → listed y (wait_for_graph requestor ids queues x)
      ≡ ((x == requestor && listed y ids) || waits_for x y queues)
unfolding wait_for_graph
wait_for_graph-waits_for requestor ids queues x y = ground (
  arith,
  temporary_edges-listed requestor ids (table_edges queues no_edges) x y,
  table_edges-listed queues no_edges x y,
)
