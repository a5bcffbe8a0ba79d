-- ===== src/Txn/Deadlock/Verdict.antt =====
-- The verdict of `find_deadlock_victim`.
use aidv.Prelude.{
  ℕ, zero, suc, ◌≤◌, ◌≡◌, refl, true, false, Option, none, some, List, [], ◌∷◌, ltb, ◌==◌, arith,
  inl, inr, Bool-cases, sym, ap, ◌∙◌, listed, insert_id, without, listed-without, listed-insert_id,
}
use aidv.Txn.Lock.{LockRequest, LockRequestQueue, blockers}
use aidv.Txn.Deadlock.{
  Graph, Search, Outcome, cycle, clear, go_on, each, enter, dfs, youngest, verdict, wait_for_graph,
  unsearched, search_fuel, find_deadlock_victim,
}
use aidv.Txn.Deadlock.Reach.{Reaches, Leads}
use aidv.Txn.Deadlock.Graph.{Known, all_nodes, wait_for_graph-Known}
use aidv.Txn.Deadlock.Visit.{
  Good, Left, Found, EachOk, DfsOk, unseen, unseen-visit, unseen-length, unseen-grows, Leads-step,
  enter-Good, leave-Ok, EachOk-later, listed-enter,
}

module _ (wait_for : Graph) (nodes : List ℕ) (known : Known nodes wait_for) where
  -- The search from any transaction that has not been visited says the truth.
  abbrev Searches : (ℕ → Search → Option Outcome) → ℕ → Type 0
  Searches search fuel =
      (u : ℕ) (s : Search)
      → listed u nodes ≡ true
      → listed u s.visited ≡ false
      → Good wait_for s
      → ((x : ℕ) → listed x s.rec_stack ≡ true → Reaches wait_for x u)
      → unseen nodes s.visited ≤ fuel
      → DfsOk wait_for s u (search u s)

  go_on-Ok :
      (s : Search) (v : ℕ) (vs : List ℕ) (o : Option Outcome) (rest : Search → Option Outcome)
      → DfsOk wait_for s v o
      → ((s1 : Search) → Left s s1 → Good wait_for s1 → EachOk wait_for s1 vs (rest s1))
      → EachOk wait_for s (v ∷ vs) (go_on o rest)
  go_on-Ok s v vs none rest e k = e
  go_on-Ok s v vs (some (cycle members)) rest e k = e
  go_on-Ok s v vs (some (clear s1)) rest (l, g, d, a) k =
      EachOk-later wait_for s s1 v vs (rest s1) l d (k s1 l g)

  -- A transaction on the stack closes a cycle.
  stack-Found :
      (u v : ℕ) (s : Search)
      → listed v (wait_for u) ≡ true
      → ((x : ℕ) → listed x s.rec_stack ≡ true → Leads wait_for x u)
      → listed v s.rec_stack ≡ true
      → Found wait_for (v ∷ without v s.rec_stack)
  stack-Found u v s edge on_path y = record {
    on_cycle = v;
    member = ground arith;
    around = Leads-step wait_for v u v (on_path v y) edge;
    lead = λ m h. elim (Bool-cases (v == m)) [
      | inl k ↦ inl (ground (arith, k))
      | inr n ↦ inr (
          Leads-step wait_for m u v
            (on_path m (ground (arith, listed-without m v s.rec_stack, h, n))) edge)
    ];
  }

  each-Ok :
      (search : ℕ → Search → Option Outcome) (fuel : ℕ) (u : ℕ) (vs : List ℕ) (s : Search)
      → Searches search fuel
      → ((v : ℕ) → listed v vs ≡ true → listed v (wait_for u) ≡ true)
      → Good wait_for s
      → ((x : ℕ) → listed x s.rec_stack ≡ true → Leads wait_for x u)
      → unseen nodes s.visited ≤ fuel
      → EachOk wait_for s vs (each search vs s)
  unfolding each
  each-Ok search fuel u [] s ok edges g on_path f =
      (record { same = λ x. refl; grows = λ x h. h }, g, λ v h. absurd cc)
  each-Ok search fuel u (v ∷ vs) s ok edges g on_path f =
      let edge = edges v (ground arith) in
      let rest = λ (s1 : Search) (l : Left s s1) (g1 : Good wait_for s1).
        each-Ok search fuel u vs s1 ok (λ x h. edges x (ground (arith, h))) g1
          (λ x h. on_path x (sym (l.same x) ∙ h))
          (omega (arith, unseen-grows nodes s.visited s1.visited l.grows, f)) in
      elim (Bool-cases (listed v s.rec_stack)) [
        | inl y ↦ rw y (stack-Found u v s edge on_path y)
        | inr n ↦ elim (Bool-cases (listed v s.visited)) [
          | inl seen ↦
              rw (n, seen)
                (EachOk-later wait_for s s v vs (each search vs s)
                  (record { same = λ x. refl; grows = λ x h. h }) (ground (arith, n, seen))
                  (rest s (record { same = λ x. refl; grows = λ x h. h }) g))
          | inr m ↦
              rw (n, m)
                (go_on-Ok s v vs (search v s) (each search vs)
                  (ok v s (known u v edge) m g (λ x h. Leads-step wait_for x u v (on_path x h) edge)
                    f)
                  rest)
        ]
      ]

  dfs-Ok : (fuel : ℕ) → Searches (dfs wait_for fuel) fuel
  unfolding dfs
  dfs-Ok zero u s there n g on_path f = absurd (
      omega (
        arith,
        unseen-visit nodes u s.visited (insert_id u s.visited)
            (λ x h. ground (arith, listed-insert_id x u s.visited, h)) there n
            (ground (arith, listed-insert_id u u s.visited)),
        f,
      ))
  dfs-Ok (suc fuel) u s there n g on_path f =
      leave-Ok wait_for u s (each (dfs wait_for fuel) (wait_for u) (enter u s)) n g (
        each-Ok (dfs wait_for fuel) fuel u (wait_for u) (enter u s) (dfs-Ok fuel) (λ v h. h)
          (enter-Good wait_for u s n g)
          (λ x h. elim (Bool-cases (u == x)) [
            | inl y ↦ inl (ground (arith, y))
            | inr m ↦ inr (on_path x (ground (arith, listed-enter u s x, h, m)))
          ])
          (omega (
            arith,
            unseen-visit nodes u s.visited (insert_id u s.visited)
                (λ x h. ground (arith, listed-insert_id x u s.visited, h)) there n
                (ground (arith, listed-insert_id u u s.visited)),
            f,
          )))

-- No victim: the requestor would not come to wait for itself. A victim: it is on a cycle or waits,
-- perhaps through others, for a transaction that is.
abbrev pub Judged : Graph → ℕ → Option ℕ → Type 0
Judged wait_for requestor none = ¬ Reaches wait_for requestor requestor
Judged wait_for requestor (some victim) = (x : ℕ) × Reaches wait_for x x × Leads wait_for victim x

youngest-listed :
    (first : ℕ) (txns : List ℕ)
    → (id : ℕ) × (youngest (some first) txns ≡ some id) × (listed id (first ∷ txns) ≡ true)
youngest-listed first [] = (first, refl, ground arith)
youngest-listed first (txn ∷ txns) = elim (Bool-cases (ltb first txn)) [
  | inl y ↦ let r = youngest-listed txn txns in (r.0, rw y r.1, ground (arith, r.2))
  | inr n ↦ let r = youngest-listed first txns in (r.0, rw n r.1, ground (arith, r.2))
]

no_truth : false ≡ true → ⊥
no_truth h = cc

verdict-Judged :
    (wait_for : Graph) (requestor : ℕ) (o : Option Outcome)
    → DfsOk wait_for unsearched requestor o
    → (victim : Option ℕ) × (verdict o ≡ some victim) × Judged wait_for requestor victim
verdict-Judged wait_for requestor none e = absurd e
verdict-Judged wait_for requestor (some (clear s)) (l, g, d, a) = (none, refl, a)
verdict-Judged wait_for requestor (some (cycle [])) e = absurd (no_truth e.member)
verdict-Judged wait_for requestor (some (cycle (m ∷ ms))) e =
    let r = youngest-listed m ms in (some r.0, ap some r.1, (e.on_cycle, e.around, e.lead r.0 r.2))

-- Where other transactions hold locks of the queue, the search ends, and in the graph of all queues
-- with the edges that the requestor would have: if it finds no victim, the requestor is on no cycle,
-- and if it finds one, there is a cycle and the victim is on it or leads to it.
pub find_deadlock_victim-Judged :
    (requestor : ℕ) (queue : List LockRequest) (queues : List LockRequestQueue) (blocker : ℕ)
    (ids : List ℕ)
    → blockers requestor queue ≡ blocker ∷ ids
    → (victim : Option ℕ) × (find_deadlock_victim requestor queue queues ≡ some victim)
      × Judged (wait_for_graph requestor (blocker ∷ ids) queues) requestor victim
unfolding find_deadlock_victim search_fuel
find_deadlock_victim-Judged requestor queue queues blocker ids e =
    let wait_for = wait_for_graph requestor (blocker ∷ ids) queues in
    let nodes = all_nodes requestor queue queues in
    let known : Known nodes wait_for = rw (← e) (wait_for_graph-Known requestor queue queues) in
    rw (e, find_deadlock_victim)
      (verdict-Judged wait_for requestor
        (dfs wait_for (search_fuel requestor queue queues) requestor unsearched)
        (dfs-Ok wait_for nodes known (search_fuel requestor queue queues) requestor unsearched
          (ground arith) refl (record { closed = λ x y h k. absurd cc; stacked = λ x h. absurd cc })
          (λ x h. absurd cc) (omega (arith, unseen-length nodes []))))
