-- ===== src/Txn/Deadlock/Graph.antt =====
-- The wait-for graph and the requests of the queues.
use aidv.Prelude.{
  ℕ, ◌≡◌, refl, true, ◌||◌, List, [], ◌∷◌, ◌++◌, ◌==◌, arith, inl, inr, Bool-cases, listed,
  listed-insert_id,
}
use aidv.Txn.Lock.{LockRequest, LockRequestQueue, blockers}
use aidv.Txn.Deadlock.{
  Graph, no_edges, add_edge, held_by, wait_edges, queue_edges, table_edges, temporary_edges,
  wait_for_graph, request_ids, all_ids,
}

pub listed-append : (k : ℕ) (xs ys : List ℕ) → listed k (xs ++ ys) ≡ (listed k xs || listed k ys)
listed-append k [] ys = refl
listed-append k (x ∷ xs) ys = ground (arith, listed-append k xs ys)

-- Every transaction that another waits for is one of these.
abbrev pub Known : List ℕ → Graph → Type 0
Known nodes wait_for = (x y : ℕ) → listed y (wait_for x) ≡ true → listed y nodes ≡ true

add_edge-Known :
    (nodes : List ℕ) (id holder : ℕ) (wait_for : Graph)
    → listed holder nodes ≡ true
    → Known nodes wait_for
    → Known nodes (add_edge id holder wait_for)
unfolding add_edge
add_edge-Known nodes id holder wait_for h k x y e = elim (Bool-cases (holder == y)) [
  | inl s ↦ (let same : holder ≡ y = ground (arith, s) in rw (← same) h)
  | inr n ↦ k x y (ground (arith, e, listed-insert_id y holder (wait_for x), n))
]

-- All members of the first are members of the second.
abbrev pub Among : List ℕ → List ℕ → Type 0
Among xs ys = (k : ℕ) → listed k xs ≡ true → listed k ys ≡ true

Among-tail : (x : ℕ) (xs ys : List ℕ) → Among (x ∷ xs) ys → Among xs ys
Among-tail x xs ys a k h = a k (ground (arith, h))

Among-head : (x : ℕ) (xs ys : List ℕ) → Among (x ∷ xs) ys → listed x ys ≡ true
Among-head x xs ys a = a x (ground arith)

pub temporary_edges-Known :
    (nodes : List ℕ) (requestor : ℕ) (ids : List ℕ) (wait_for : Graph)
    → Among ids nodes
    → Known nodes wait_for
    → Known nodes (temporary_edges requestor ids wait_for)
unfolding temporary_edges
temporary_edges-Known nodes requestor [] wait_for a k = k
temporary_edges-Known nodes requestor (b ∷ ids) wait_for a k =
    temporary_edges-Known nodes requestor ids (add_edge requestor b wait_for)
      (Among-tail b ids nodes a)
      (add_edge-Known nodes requestor b wait_for (Among-head b ids nodes a) k)

wait_edges-Known :
    (nodes : List ℕ) (id : ℕ) (holders : List ℕ) (wait_for : Graph)
    → Among holders nodes
    → Known nodes wait_for
    → Known nodes (wait_edges id holders wait_for)
unfolding wait_edges
wait_edges-Known nodes id [] wait_for a k = k
wait_edges-Known nodes id (h ∷ hs) wait_for a k = elim (Bool-cases (h == id)) [
  | inl y ↦ rw y (wait_edges-Known nodes id hs wait_for (Among-tail h hs nodes a) k)
  | inr n ↦ rw n (
      wait_edges-Known nodes id hs (add_edge id h wait_for) (Among-tail h hs nodes a)
        (add_edge-Known nodes id h wait_for (Among-head h hs nodes a) k))
]

queue_edges-Known :
    (nodes holders : List ℕ) (requests : List LockRequest) (wait_for : Graph)
    → Among holders nodes
    → Known nodes wait_for
    → Known nodes (queue_edges holders requests wait_for)
unfolding queue_edges
queue_edges-Known nodes holders [] wait_for a k = k
queue_edges-Known nodes holders (r ∷ requests) wait_for a k = elim (Bool-cases r.granted) [
  | inl y ↦ rw y (queue_edges-Known nodes holders requests wait_for a k)
  | inr n ↦ rw n (
      queue_edges-Known nodes holders requests (wait_edges r.txn_id holders wait_for) a
        (wait_edges-Known nodes r.txn_id holders wait_for a k))
]

held_by-Among : (requests : List LockRequest) → Among (held_by requests) (request_ids requests)
held_by-Among [] k h = absurd cc
held_by-Among (r ∷ requests) k h =
    ground (arith, held_by-Among requests k, listed-insert_id k r.txn_id (held_by requests), h)

table_edges-Known :
    (nodes : List ℕ) (queues : List LockRequestQueue) (wait_for : Graph)
    → Among (all_ids queues) nodes
    → Known nodes wait_for
    → Known nodes (table_edges queues wait_for)
unfolding table_edges
table_edges-Known nodes [] wait_for a k = k
table_edges-Known nodes (q ∷ queues) wait_for a k =
    let own : Among (held_by q.request_queue) nodes = λ x h. a x (
      ground (
        arith,
        listed-append x (request_ids q.request_queue) (all_ids queues),
        held_by-Among q.request_queue x h,
      )) in
    table_edges-Known nodes queues (queue_edges (held_by q.request_queue) q.request_queue wait_for)
      (λ x h.
        a x (ground (arith, listed-append x (request_ids q.request_queue) (all_ids queues), h)))
      (queue_edges-Known nodes (held_by q.request_queue) q.request_queue wait_for own k)

blockers-Among :
    (requestor : ℕ) (requests : List LockRequest)
    → Among (blockers requestor requests) (request_ids requests)
unfolding blockers
blockers-Among requestor [] k h = absurd cc
blockers-Among requestor (r ∷ requests) k h = ground (arith, blockers-Among requestor requests k, h)

-- The transactions of the queues and the requestor.
abbrev pub all_nodes : ℕ → List LockRequest → List LockRequestQueue → List ℕ
all_nodes requestor queue queues = requestor ∷ (request_ids queue ++ all_ids queues)

pub wait_for_graph-Known :
    (requestor : ℕ) (queue : List LockRequest) (queues : List LockRequestQueue)
    → Known
        (all_nodes requestor queue queues)
        (wait_for_graph requestor (blockers requestor queue) queues)
unfolding wait_for_graph
wait_for_graph-Known requestor queue queues =
    let nodes = all_nodes requestor queue queues in
    temporary_edges-Known nodes requestor (blockers requestor queue) (table_edges queues no_edges)
      (λ k h. ground (
        arith,
        listed-append k (request_ids queue) (all_ids queues),
        blockers-Among requestor queue k h,
      ))
      (table_edges-Known nodes queues no_edges
        (λ k h. ground (arith, listed-append k (request_ids queue) (all_ids queues), h))
        (λ x y e. absurd cc))
