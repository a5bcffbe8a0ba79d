-- ===== src/Txn/Deadlock/Visit.antt =====
-- The search for a cycle: what it says of the graph, whatever was visited before.
use aidv.Prelude.{
  ℕ, suc, ◌≤◌, ◌<◌, ◌≡◌, Bool, true, false, ◌&&◌, not, Option, none, some, List, [], ◌∷◌, ◌==◌,
  if◌then◌else◌, arith, inl, inr, Bool-cases, ◌∙◌, length, listed, without, listed-without,
  listed-insert_id,
}
use aidv.Txn.Deadlock.{Graph, Search, Outcome, cycle, clear, enter, leave}
use aidv.Txn.Deadlock.Reach.{Reaches, one, more, Leads, Reaches-listed}

-- Visited, and left again.
abbrev pub is_done : Search → ℕ → Bool
is_done s x = listed x s.visited && not (listed x s.rec_stack)

-- All that a transaction waits for, that has been left, has been left too.
pub record Good (wait_for : Graph) (s : Search) : Type 0 where
  pub closed : (x y : ℕ) → is_done s x ≡ true → listed y (wait_for x) ≡ true → is_done s y ≡ true
  pub stacked : (x : ℕ) → listed x s.rec_stack ≡ true → listed x s.visited ≡ true

pub record Left (s s' : Search) : Type 0 where
  pub same : (x : ℕ) → listed x s'.rec_stack ≡ listed x s.rec_stack
  pub grows : (x : ℕ) → listed x s.visited ≡ true → listed x s'.visited ≡ true

Left-trans : (s s' s'' : Search) → Left s s' → Left s' s'' → Left s s''
Left-trans s s' s'' l k = record {
  same = λ x. k.same x ∙ l.same x;
  grows = λ x h. k.grows x (l.grows x h);
}

is_done-Left : (s s' : Search) (x : ℕ) → Left s s' → is_done s x ≡ true → is_done s' x ≡ true
is_done-Left s s' x l h =
    let v : listed x s.visited ≡ true = ground (arith, h) in
    ground (arith, h, l.same x, l.grows x v)

-- There is a cycle, and every member is on it or leads to it.
pub record Found (wait_for : Graph) (members : List ℕ) : Type 0 where
  pub on_cycle : ℕ
  pub member : listed on_cycle members ≡ true
  pub around : Reaches wait_for on_cycle on_cycle
  pub lead : (m : ℕ) → listed m members ≡ true → Leads wait_for m on_cycle

-- What `each` says after the transactions `vs`.
abbrev pub EachOk : Graph → Search → List ℕ → Option Outcome → Type 0
EachOk wait_for s vs none = ⊥
EachOk wait_for s vs (some (cycle members)) = Found wait_for members
EachOk wait_for s vs (some (clear s')) =
    Left s s' × Good wait_for s' × ((v : ℕ) → listed v vs ≡ true → is_done s' v ≡ true)

abbrev pub DfsOk : Graph → Search → ℕ → Option Outcome → Type 0
DfsOk wait_for s u none = ⊥
DfsOk wait_for s u (some (cycle members)) = Found wait_for members
DfsOk wait_for s u (some (clear s')) =
    Left s s' × Good wait_for s' × (is_done s' u ≡ true) × (¬ Reaches wait_for u u)

-- How many of the transactions have not been visited.
pub unseen : List ℕ → List ℕ → ℕ
unseen [] visited = 0
unseen (x ∷ xs) visited = if listed x visited then unseen xs visited else suc (unseen xs visited)

pub unseen-grows :
    (nodes a b : List ℕ)
    → ((x : ℕ) → listed x a ≡ true → listed x b ≡ true)
    → unseen nodes b ≤ unseen nodes a
unfolding unseen
unseen-grows [] a b h = omega arith
unseen-grows (x ∷ xs) a b h = ground (arith, unseen-grows xs a b h, h x)

-- One of them has been visited on the way.
pub unseen-visit :
    (nodes : List ℕ) (u : ℕ) (a b : List ℕ)
    → ((x : ℕ) → listed x a ≡ true → listed x b ≡ true)
    → listed u nodes ≡ true
    → listed u a ≡ false
    → listed u b ≡ true
    → unseen nodes b < unseen nodes a
unfolding unseen
unseen-visit [] u a b h there n own = absurd cc
unseen-visit (x ∷ xs) u a b h there n own = elim (Bool-cases (x == u)) [
  | inl y ↦
      let same : x ≡ u = ground (arith, y) in
      rw (same, own, n) (omega (arith, unseen-grows xs a b h))
  | inr m ↦
      let rest : listed u xs ≡ true = ground (arith, there, m) in
      ground (arith, unseen-visit xs u a b h rest n own, h x)
]

pub unseen-length : (nodes visited : List ℕ) → unseen nodes visited ≤ length nodes
unfolding unseen
unseen-length [] visited = omega arith
unseen-length (x ∷ xs) visited = ground (arith, unseen-length xs visited)

pub Leads-step :
    (wait_for : Graph) (a b c : ℕ)
    → Leads wait_for a b
    → listed c (wait_for b) ≡ true
    → Reaches wait_for a c
Leads-step wait_for a b c (inl e) h = one c (rw e h)
Leads-step wait_for a b c (inr r) h = more b c r h

pub listed-enter :
    (u : ℕ) (s : Search) (x : ℕ)
    → (listed x (enter u s).visited ≡ (if u == x then true else listed x s.visited))
      × (listed x (enter u s).rec_stack ≡ (if u == x then true else listed x s.rec_stack))
listed-enter u s x = (listed-insert_id x u s.visited, listed-insert_id x u s.rec_stack)

is_done-enter :
    (u : ℕ) (s : Search) (x : ℕ) → is_done (enter u s) x ≡ (if u == x then false else is_done s x)
is_done-enter u s x = ground (arith, listed-enter u s x)

pub enter-Good :
    (wait_for : Graph) (u : ℕ) (s : Search)
    → listed u s.visited ≡ false
    → Good wait_for s
    → Good wait_for (enter u s)
enter-Good wait_for u s n g = record {
  closed = λ x y h e.
      let old : is_done s x ≡ true = ground (arith, is_done-enter u s x, h) in
      let next = g.closed x y old e in
      let apart : (u == y) ≡ false = elim (Bool-cases (u == y)) [
        | inl k ↦ (let same : u ≡ y = ground (arith, k) in absurd (ground (arith, next, n, same)))
        | inr k ↦ k
      ] in
      is_done-enter u s y ∙ rw apart next;
  stacked = λ x h. ground (arith, listed-enter u s x, g.stacked x, h);
}

abbrev left_by : ℕ → Search → Search
left_by u s = record s { rec_stack = without u s.rec_stack }

left_by-done : (u : ℕ) (s : Search) (x : ℕ) → is_done s x ≡ true → is_done (left_by u s) x ≡ true
left_by-done u s x h = ground (arith, listed-without x u s.rec_stack, h)

left_by-other :
    (u : ℕ) (s : Search) (x : ℕ) → (u == x) ≡ false → is_done (left_by u s) x ≡ is_done s x
left_by-other u s x n = ground (arith, listed-without x u s.rec_stack, n)

left_by-Left :
    (u : ℕ) (s s1 : Search)
    → listed u s.rec_stack ≡ false
    → Left (enter u s) s1
    → Left s (left_by u s1)
left_by-Left u s s1 n l = record {
  same = λ x. elim (Bool-cases (u == x)) [
    | inl y ↦
        let same : u ≡ x = ground (arith, y) in
        let off : listed x s.rec_stack ≡ false = rw (← same) n in
        ground (arith, listed-without x u s1.rec_stack, y, off)
    | inr m ↦ ground (arith, listed-without x u s1.rec_stack, l.same x, listed-enter u s x, m)
  ];
  grows = λ x h. l.grows x (ground (arith, listed-enter u s x, h));
}

left_by-Good :
    (wait_for : Graph) (u : ℕ) (s1 : Search)
    → Good wait_for s1
    → ((v : ℕ) → listed v (wait_for u) ≡ true → is_done s1 v ≡ true)
    → Good wait_for (left_by u s1)
left_by-Good wait_for u s1 g all = record {
  closed = λ x y h e. left_by-done u s1 y (elim (Bool-cases (u == x)) [
    | inl k ↦ let same : u ≡ x = ground (arith, k) in all y (rw same e)
    | inr k ↦ g.closed x y (rw (← left_by-other u s1 x k) h) e
  ]);
  stacked = λ x h. g.stacked x (ground (arith, listed-without x u s1.rec_stack, h));
}

-- What `dfs` leaves, where `each` has left all that `u` waits for.
pub leave-Ok :
    (wait_for : Graph) (u : ℕ) (s : Search) (o : Option Outcome)
    → listed u s.visited ≡ false
    → Good wait_for s
    → EachOk wait_for (enter u s) (wait_for u) o
    → DfsOk wait_for s u (leave u o)
leave-Ok wait_for u s none n g e = e
leave-Ok wait_for u s (some (cycle members)) n g e = e
leave-Ok wait_for u s (some (clear s1)) n g (l, g1, all) =
    let off : listed u s.rec_stack ≡ false = ground (arith, g.stacked u, n) in
    let on : listed u s1.rec_stack ≡ true = ground (arith, l.same u, listed-enter u s u) in
    let seen : listed u s1.visited ≡ true = g1.stacked u on in
    (
      left_by-Left u s s1 off l,
      left_by-Good wait_for u s1 g1 all,
      ground (arith, listed-without u u s1.rec_stack, seen),
      λ r.
          (let back =
              Reaches-listed wait_for u (λ x. is_done s1 x ≡ true) all
                (λ b c h e. g1.closed b c h e) u r in
            ground (arith, back, on)),
    )

-- The loop, where the search of each transaction that it enters says the truth.
pub EachOk-later :
    (wait_for : Graph) (s s1 : Search) (v : ℕ) (vs : List ℕ) (o : Option Outcome)
    → Left s s1
    → is_done s1 v ≡ true
    → EachOk wait_for s1 vs o
    → EachOk wait_for s (v ∷ vs) o
EachOk-later wait_for s s1 v vs none l d e = e
EachOk-later wait_for s s1 v vs (some (cycle members)) l d e = e
EachOk-later wait_for s s1 v vs (some (clear s2)) l d (k, g, all) = (
  Left-trans s s1 s2 l k,
  g,
  λ x h. elim (Bool-cases (v == x)) [
    | inl y ↦ (let same : v ≡ x = ground (arith, y) in rw (← same) (is_done-Left s1 s2 v k d))
    | inr n ↦ all x (ground (arith, h, n))
  ],
)
