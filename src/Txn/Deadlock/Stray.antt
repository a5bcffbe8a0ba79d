-- ===== src/Txn/Deadlock/Stray.antt =====
-- The victim of a cycle that the requestor is not on.
use aidv.Prelude.{
  ℕ, suc, ◌<◌, ◌≡◌, refl, true, false, Option, some, List, [], ◌∷◌, ◌==◌, arith, inl, inr, ap, sym,
  ◌∙◌, ◌⊎◌, listed,
}
use aidv.Txn.Lock.{LockRequestQueue, exclusive, group_x, blockers}
use aidv.Txn.Deadlock.{
  Graph, add_edge, wait_edges, queue_edges, table_edges, temporary_edges, wait_for_graph, each, dfs,
  unsearched, Search, Outcome, cycle, clear, enter, leave, go_on, search_fuel, find_deadlock_victim,
}
use aidv.Txn.Deadlock.Reach.{Reaches, one, more, Reaches-listed}

-- A queue where the first holds an exclusive lock and the second waits for one.
abbrev pub waits_behind : ℕ → ℕ → LockRequestQueue
waits_behind holder waiter = record {
  request_queue =
      record { txn_id = holder; lock_mode = exclusive; granted = true }
      ∷ record { txn_id = waiter; lock_mode = exclusive; granted = false }
      ∷ [];
  group_lock_mode = group_x;
}

-- Two transactions that wait for each other.
abbrev pub crossed : ℕ → ℕ → List LockRequestQueue
crossed a b = waits_behind a b ∷ waits_behind b a ∷ []

dfs_step :
    (g : Graph) (fuel u : ℕ) (s : Search)
    → dfs g (suc fuel) u s ≡ leave u (each (dfs g fuel) (g u) (enter u s))
unfolding dfs
dfs_step g fuel u s = refl

each_enters :
    (search : ℕ → Search → Option Outcome) (v : ℕ) (s : Search)
    → listed v s.rec_stack ≡ false
    → listed v s.visited ≡ false
    → each search (v ∷ []) s ≡ go_on (search v s) (λ s'. some (clear s'))
unfolding each
each_enters search v s off fresh = rw (off, fresh) refl

only : (xs : List ℕ) (x y : ℕ) → xs ≡ x ∷ [] → listed y xs ≡ true → y ≡ x
only xs x y e h =
    let k : listed y (x ∷ []) ≡ true = ap (λ zs. listed y zs) (sym e) ∙ h in ground (arith, k)

module _ (r a b : ℕ) (younger_a : a < r) (younger_b : b < r) (apart : (a == b) ≡ false) where
  crossed_graph :
      (wait_for_graph r (a ∷ []) (crossed a b) r ≡ a ∷ [])
      × (wait_for_graph r (a ∷ []) (crossed a b) a ≡ b ∷ [])
      × (wait_for_graph r (a ∷ []) (crossed a b) b ≡ a ∷ [])
  unfolding wait_for_graph temporary_edges table_edges queue_edges wait_edges add_edge
  crossed_graph = (ground arith, ground arith, ground arith)

  module _ (g : Graph) (from_r : g r ≡ a ∷ []) (from_a : g a ≡ b ∷ []) (from_b : g b ≡ a ∷ []) where
    abbrev at_a : Search
    at_a = record { visited = a ∷ r ∷ []; rec_stack = a ∷ r ∷ [] }

    abbrev at_r : Search
    at_r = record { visited = r ∷ []; rec_stack = r ∷ [] }

    dfs_b : (fuel : ℕ) → dfs g (suc fuel) b at_a ≡ some (cycle (a ∷ b ∷ r ∷ []))
    unfolding dfs each
    dfs_b fuel = rw from_b (ground (arith, apart))

    dfs_a : (fuel : ℕ) → dfs g (suc (suc fuel)) a at_r ≡ some (cycle (a ∷ b ∷ r ∷ []))
    dfs_a fuel =
        let ra : (r == a) ≡ false = ground arith in
        let rb : (r == b) ≡ false = ground arith in
        rw (dfs_step g (suc fuel) a at_r, from_a, ra)
          (rw
            (each_enters (dfs g (suc fuel)) b at_a (ground (arith, apart, rb))
              (ground (arith, apart, rb)))
            (rw (dfs_b fuel) refl))

    dfs_r : (fuel : ℕ) → dfs g (suc (suc (suc fuel))) r unsearched ≡ some (cycle (a ∷ b ∷ r ∷ []))
    dfs_r fuel =
        let ra : (r == a) ≡ false = ground arith in
        rw (dfs_step g (suc (suc fuel)) r unsearched, from_r)
          (rw
            (each_enters (dfs g (suc (suc fuel))) a at_r (ground (arith, ra)) (ground (arith, ra)))
            (rw (dfs_a fuel) refl))

  crossed_victim :
      find_deadlock_victim r (waits_behind a b).request_queue (crossed a b) ≡ some (some r)
  unfolding find_deadlock_victim search_fuel blockers
  crossed_victim =
      let ar : (a == r) ≡ false = ground arith in
      let found =
        dfs_r (wait_for_graph r (a ∷ []) (crossed a b)) crossed_graph.0 crossed_graph.1
          crossed_graph.2 5 in
      rw (ar, find_deadlock_victim) (rw found (ground arith))

  abbrev crossed_wait_for : Graph
  crossed_wait_for = wait_for_graph r (a ∷ []) (crossed a b)

  -- What can be reached stays among the two.
  inside_step :
      (x y : ℕ) → (x ≡ a) ⊎ (x ≡ b) → listed y (crossed_wait_for x) ≡ true → (y ≡ a) ⊎ (y ≡ b)
  inside_step x y (inl e) h =
      inr (only (crossed_wait_for x) b y (ap crossed_wait_for e ∙ crossed_graph.1) h)
  inside_step x y (inr e) h =
      inl (only (crossed_wait_for x) a y (ap crossed_wait_for e ∙ crossed_graph.2) h)

  outside : (r ≡ a) ⊎ (r ≡ b) → ⊥
  outside (inl e) = omega arith
  outside (inr e) = omega arith

  not_reached : ¬ Reaches crossed_wait_for r r
  not_reached h = outside (
      Reaches-listed crossed_wait_for r (λ x. (x ≡ a) ⊎ (x ≡ b))
        (λ x e. inl (only (crossed_wait_for r) a x crossed_graph.0 e)) inside_step r h)

  around_a : Reaches crossed_wait_for a a
  around_a =
      more b a (one b (rw (crossed_graph.1) (ground arith))) (rw (crossed_graph.2) (ground arith))

-- If two transactions wait for each other, and a younger one asks for the lock that one of them holds,
-- then the victim is the younger one, although it is on no cycle and the two are.
pub stray_victim :
    (r a b : ℕ)
    → a < r
    → b < r
    → (a == b) ≡ false
    → (find_deadlock_victim r (waits_behind a b).request_queue (crossed a b) ≡ some (some r))
      × (¬ Reaches (wait_for_graph r (a ∷ []) (crossed a b)) r r)
      × Reaches (wait_for_graph r (a ∷ []) (crossed a b)) a a
stray_victim r a b younger_a younger_b apart = (
  crossed_victim r a b younger_a younger_b apart,
  not_reached r a b younger_a younger_b apart,
  around_a r a b younger_a younger_b apart,
)
