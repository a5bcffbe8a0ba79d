-- ===== src/Record/Bits.antt =====
-- What the bitmap's search finds, and the number of bits that are set.
use aidv.Prelude.{
  ℕ, zero, suc, ◌+◌, ◌-◌, ◌≤◌, ◌<◌, ◌≡◌, refl, Bool, true, false, arith, ltb, if◌then◌else◌, inl,
  inr, Bool-cases, eq-or-ne,
}
use aidv.Record.{same_bit, next_from, next_bit, first_bit, set_bit}

-- How many of the first `n` bits are set.
abbrev pub count_bits : (ℕ → Bool) → ℕ → ℕ
count_bits bm zero = 0
count_bits bm (suc n) = if bm n then suc (count_bits bm n) else count_bits bm n

pub count_bits_le : (bm : ℕ → Bool) (n : ℕ) → count_bits bm n ≤ n
count_bits_le bm zero = omega arith
count_bits_le bm (suc n) = ground (arith, count_bits_le bm n)

count_bits-outside :
    (bm : ℕ → Bool) (pos n : ℕ) (b : Bool)
    → n ≤ pos
    → count_bits (set_bit bm pos b) n ≡ count_bits bm n
count_bits-outside bm pos zero b h = refl
count_bits-outside bm pos (suc n) b h = ground (arith, count_bits-outside bm pos n b)

-- A bit that is set anew, and one that is taken back.
pub count_bits-set :
    (bm : ℕ → Bool) (pos n : ℕ)
    → pos < n
    → bm pos ≡ false
    → count_bits (set_bit bm pos true) n ≡ suc (count_bits bm n)
count_bits-set bm pos zero h f = elim h [ ]
count_bits-set bm pos (suc n) h f =
    ground (arith, count_bits-set bm pos n, count_bits-outside bm pos n true)

pub count_bits-reset :
    (bm : ℕ → Bool) (pos n : ℕ)
    → pos < n
    → bm pos ≡ true
    → suc (count_bits (set_bit bm pos false) n) ≡ count_bits bm n
count_bits-reset bm pos zero h f = elim h [ ]
count_bits-reset bm pos (suc n) h f =
    ground (arith, count_bits-reset bm pos n, count_bits-outside bm pos n false)

pub none_set : (n : ℕ) → count_bits (λ _. false) n ≡ 0
none_set zero = refl
none_set (suc n) = none_set n

-- With a bit that is not set among the first `n`, not all are counted.
all_set : (bm : ℕ → Bool) (n : ℕ) → ((j : ℕ) → j < n → bm j ≡ true) → count_bits bm n ≡ n
all_set bm zero h = refl
all_set bm (suc n) h = ground (arith, all_set bm n (λ j k. h j (omega arith)), h n (omega arith))

next_from_lower :
    (bm : ℕ → Bool) (bit : Bool) (n left i : ℕ)
    → next_from bit bm n left i < n
    → i ≤ next_from bit bm n left i
unfolding next_from
next_from_lower bm bit n zero i h = absurd (omega arith)
next_from_lower bm bit n (suc left) i h = ground (arith, next_from_lower bm bit n left (suc i))

next_from-found :
    (bm : ℕ → Bool) (bit : Bool) (n left i : ℕ)
    → next_from bit bm n left i < n
    → bm (next_from bit bm n left i) ≡ bit
unfolding next_from
next_from-found bm bit n zero i h = absurd (omega arith)
next_from-found bm bit n (suc left) i h = elim (Bool-cases (same_bit (bm i) bit)) [
  | inl y ↦ rw (y) (ground (arith, y))
  | inr d ↦ rw (d) (next_from-found bm bit n left (suc i) (ground (arith, d)))
]

next_from-skipped :
    (bm : ℕ → Bool) (bit : Bool) (n left i j : ℕ)
    → n ≤ i + left
    → i ≤ j
    → j < next_from bit bm n left i
    → same_bit (bm j) bit ≡ false
unfolding next_from
next_from-skipped bm bit n zero i j e h k = absurd (omega arith)
next_from-skipped bm bit n (suc left) i j e h k = elim (Bool-cases (same_bit (bm i) bit)) [
  | inl y ↦ ground (arith, y)
  | inr d ↦ elim (eq-or-ne i j) [
    | inl e ↦ ground (arith, e, d)
    | inr ne ↦
        next_from-skipped bm bit n left (suc i) j (omega arith) (omega arith) (ground (arith, d))
  ]
]

-- What `next_bit` answers, if it is in range and in any case.
pub next_bit-found :
    (bm : ℕ → Bool) (bit : Bool) (n first : ℕ)
    → next_bit bit bm n first < n
    → (first ≤ next_bit bit bm n first) × (bm (next_bit bit bm n first) ≡ bit)
unfolding next_bit
next_bit-found bm bit n first h =
    (next_from_lower bm bit n (n - first) first h, next_from-found bm bit n (n - first) first h)

pub next_bit-skipped :
    (bm : ℕ → Bool) (bit : Bool) (n first j : ℕ)
    → first ≤ j
    → j < next_bit bit bm n first
    → same_bit (bm j) bit ≡ false
unfolding next_bit
next_bit-skipped bm bit n first j h k =
    next_from-skipped bm bit n (n - first) first j (omega arith) h k

-- The first free slot is in range if fewer bits are set than there are, and it is free.
pub first_bit-free :
    (bm : ℕ → Bool) (n : ℕ)
    → count_bits bm n < n
    → (first_bit false bm n < n) × (bm (first_bit false bm n) ≡ false)
unfolding first_bit
first_bit-free bm n h = elim (Bool-cases (ltb (next_bit false bm n 0) n)) [
  | inl y ↦ (ground (arith, y), (next_bit-found bm false n 0 (ground (arith, y))).1)
  | inr k ↦ absurd (
      omega (
        arith,
        all_set bm n (λ j l.
            ground (arith, next_bit-skipped bm false n 0 j (omega arith) (ground (arith, k)))),
      ))
]
