-- ===== src/Replacer/Order.antt =====
-- The list of nodes: which node holds a frame, and what an erasure leaves.
use aidv.Prelude.{
  ℕ, ◌≤◌, ◌<◌, ◌≡◌, refl, ◌≢◌, Option, none, some, List, [], ◌∷◌, ◌++◌, map, arith, ◌==◌,
  if◌then◌else◌, Bool, true, false, ◌||◌,
}
use aidv.Replacer.{Node, back, pop_back, erase_node}

-- The node that holds a frame.
abbrev pub node_of : ℕ → List Node → Option ℕ
node_of f [] = none
node_of f (x ∷ xs) = if x.frame_id == f then some x.id else node_of f xs

-- Node ids fall along the list and stay below the bound, and no frame stands twice.
abbrev pub Distinct : ℕ → List Node → Type 0
Distinct n [] = Unit {0}
Distinct n (x ∷ xs) = (x.id < n) × (node_of x.frame_id xs ≡ none) × Distinct x.id xs

pub Distinct-mono : (m n : ℕ) (xs : List Node) → m ≤ n → Distinct m xs → Distinct n xs
Distinct-mono m n [] h d = tt
Distinct-mono m n (x ∷ xs) h d = (omega arith, d.1, d.2)

pub node_of-lt : (f it n : ℕ) (xs : List Node) → Distinct n xs → node_of f xs ≡ some it → it < n
node_of-lt f it n [] d e = absurd (cc)
node_of-lt f it n (x ∷ xs) d e = ground (arith, node_of-lt f it x.id xs d.2)

abbrev pub elem : ℕ → List ℕ → Bool
elem f [] = false
elem f (x ∷ xs) = x == f || elem f xs

abbrev pub remove : ℕ → List ℕ → List ℕ
remove f [] = []
remove f (x ∷ xs) = if x == f then xs else x ∷ remove f xs

abbrev pub ids : List Node → List ℕ
ids = map (λ (x : Node). x.frame_id)

pub erase_node-node_of :
    (f q it n : ℕ) (xs : List Node)
    → Distinct n xs
    → node_of f xs ≡ some it
    → node_of q (erase_node it xs) ≡ (if f == q then none else node_of q xs)
erase_node-node_of f q it n [] d e = absurd (cc)
erase_node-node_of f q it n (x ∷ xs) d e =
    ground (arith, erase_node-node_of f q it x.id xs d.2, node_of-lt f it x.id xs d.2)

pub erase_node-Distinct :
    (f it n : ℕ) (xs : List Node)
    → Distinct n xs
    → node_of f xs ≡ some it
    → Distinct n (erase_node it xs)
erase_node-Distinct f it n [] d e = tt
erase_node-Distinct f it n (x ∷ xs) d e = ground (
  arith,
  erase_node-Distinct f it x.id xs d.2,
  erase_node-node_of f x.frame_id it x.id xs d.2,
  node_of-lt f it x.id xs d.2,
  Distinct-mono x.id n xs,
)

pub ids-erase_node :
    (f it n : ℕ) (xs : List Node)
    → Distinct n xs
    → node_of f xs ≡ some it
    → ids (erase_node it xs) ≡ remove f (ids xs)
ids-erase_node f it n [] d e = refl
ids-erase_node f it n (x ∷ xs) d e =
    ground (arith, ids-erase_node f it x.id xs d.2, node_of-lt f it x.id xs d.2)

pub elem-node_of : (f : ℕ) (xs : List Node) → node_of f xs ≡ none → elem f (ids xs) ≡ false
elem-node_of f [] e = refl
elem-node_of f (x ∷ xs) e = ground (arith, elem-node_of f xs)

pub node_of-elem : (f it : ℕ) (xs : List Node) → node_of f xs ≡ some it → elem f (ids xs) ≡ true
node_of-elem f it [] e = cc
node_of-elem f it (x ∷ xs) e = ground (arith, node_of-elem f it xs)

pub remove_absent : (f : ℕ) (xs : List ℕ) → elem f xs ≡ false → remove f xs ≡ xs
remove_absent f [] e = refl
remove_absent f (x ∷ xs) e = ground (arith, remove_absent f xs)

-- What `pop_back` leaves, with the last node that `back` returns.
pub back-none : (xs : List Node) → back xs ≡ none → xs ≡ []
back-none [] e = refl
back-none (x ∷ []) e = cc
back-none (x ∷ y ∷ xs) e = absurd (cc (back-none (y ∷ xs) e))

pub ids-pop_back :
    (xs : List Node) (x : Node) → back xs ≡ some x → ids xs ≡ ids (pop_back xs) ++ x.frame_id ∷ []
ids-pop_back [] x e = cc
ids-pop_back (y ∷ []) x e = ground arith
ids-pop_back (y ∷ z ∷ xs) x e = ground (arith, ids-pop_back (z ∷ xs) x e)

pub back-node_of :
    (xs : List Node) (x : Node) (f : ℕ) → back xs ≡ some x → node_of f xs ≡ none → x.frame_id ≢ f
back-node_of [] x f e h = λ _. cc
back-node_of (y ∷ []) x f e h = ground arith
back-node_of (y ∷ z ∷ xs) x f e h = ground (arith, back-node_of (z ∷ xs) x f e)

pub pop_back-node_of :
    (n q : ℕ) (xs : List Node) (x : Node)
    → Distinct n xs
    → back xs ≡ some x
    → node_of q (pop_back xs) ≡ (if x.frame_id == q then none else node_of q xs)
pop_back-node_of n q [] x d e = cc
pop_back-node_of n q (y ∷ []) x d e = ground arith
pop_back-node_of n q (y ∷ z ∷ xs) x d e =
    ground
      (arith, pop_back-node_of y.id q (z ∷ xs) x d.2 e, back-node_of (z ∷ xs) x y.frame_id e d.1)

pub pop_back-Distinct :
    (n : ℕ) (xs : List Node) (x : Node)
    → Distinct n xs
    → back xs ≡ some x
    → Distinct n (pop_back xs)
pop_back-Distinct n [] x d e = tt
pop_back-Distinct n (y ∷ []) x d e = tt
pop_back-Distinct n (y ∷ z ∷ xs) x d e = (
  d.0,
  ground (arith, pop_back-node_of y.id y.frame_id (z ∷ xs) x d.2 e),
  pop_back-Distinct y.id (z ∷ xs) x d.2 e,
)
