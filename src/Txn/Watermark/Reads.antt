-- ===== src/Txn/Watermark/Reads.antt =====
-- The ordered map of the watermark: its order is kept, and it is read by counts.
use aidv.Prelude.{ℕ, ◌≤◌, ◌<◌, ◌≡◌, refl, none, some, List, [], ◌∷◌, arith, ◌==◌, if◌then◌else◌}
use aidv.Prelude.Assoc.{lookup, erase}
use aidv.Txn.Watermark.{put}

-- The keys ascend above the bound, and every count is positive.
abbrev pub Above : ℕ → List (ℕ × ℕ) → Type 0
Above k [] = Unit {0}
Above k ((j, n) ∷ rest) = (k < j) × (0 < n) × Above j rest

abbrev pub Ordered : List (ℕ × ℕ) → Type 0
Ordered [] = Unit {0}
Ordered ((j, n) ∷ rest) = (0 < n) × Above j rest

-- How many transactions read at the timestamp.
abbrev pub readers : ℕ → List (ℕ × ℕ) → ℕ
readers t m = elim (lookup t m) [ none ↦ 0 | some n ↦ n ]

pub Above-mono : (k j : ℕ) (m : List (ℕ × ℕ)) → k ≤ j → Above j m → Above k m
Above-mono k j [] h a = tt
Above-mono k j ((i, n) ∷ m) h a = (omega arith, a.1, a.2)

pub Above-Ordered : (k : ℕ) (m : List (ℕ × ℕ)) → Above k m → Ordered m
Above-Ordered k [] a = tt
Above-Ordered k ((j, n) ∷ m) a = (a.1, a.2)

pub lookup_below : (t k : ℕ) (m : List (ℕ × ℕ)) → Above k m → t ≤ k → lookup t m ≡ none
lookup_below t k [] a h = refl
lookup_below t k ((j, n) ∷ m) a h = ground (arith, lookup_below t j m a.2)

pub put-Above : (t n k : ℕ) (m : List (ℕ × ℕ)) → k < t → 0 < n → Above k m → Above k (put t n m)
unfolding put
put-Above t n k [] h p a = (h, p, tt)
put-Above t n k ((j, i) ∷ m) h p a = ground (arith, put-Above t n j m)

pub put-Ordered : (t n : ℕ) (m : List (ℕ × ℕ)) → 0 < n → Ordered m → Ordered (put t n m)
unfolding put
put-Ordered t n [] p o = (p, tt)
put-Ordered t n ((j, i) ∷ m) p o = ground (arith, put-Above t n j m)

pub readers-put :
    (t n q : ℕ) (m : List (ℕ × ℕ))
    → Ordered m
    → readers q (put t n m) ≡ (if t == q then n else readers q m)
unfolding put
readers-put t n q [] o = ground arith
readers-put t n q ((j, i) ∷ m) o =
    ground (arith, readers-put t n q m (Above-Ordered j m o.1), lookup_below t j m o.1)

pub erase-Above : (t k : ℕ) (m : List (ℕ × ℕ)) → Above k m → Above k (erase t m)
erase-Above t k [] a = tt
erase-Above t k ((j, n) ∷ m) a = ground (arith, erase-Above t j m a.2, Above-mono k j (erase t m))

pub erase-Ordered : (t : ℕ) (m : List (ℕ × ℕ)) → Ordered m → Ordered (erase t m)
erase-Ordered t [] o = tt
erase-Ordered t ((j, n) ∷ m) o = ground (arith, erase-Above t j m o.1, Above-Ordered j (erase t m))

-- Every key of an ordered map with readers is at least the first one.
pub first_least : (k n q : ℕ) (m : List (ℕ × ℕ)) → Above k m → 0 < readers q ((k, n) ∷ m) → k ≤ q
first_least k n q m a h = ground (arith, lookup_below q k m a)

pub lookup-pos : (t n : ℕ) (m : List (ℕ × ℕ)) → Ordered m → lookup t m ≡ some n → 0 < n
lookup-pos t n [] o e = absurd (cc)
lookup-pos t n ((j, i) ∷ m) o e = ground (arith, lookup-pos t n m (Above-Ordered j m o.1))
