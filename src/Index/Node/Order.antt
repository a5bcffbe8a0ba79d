-- ===== src/Index/Node/Order.antt =====
-- Sorted pairs: what the binary searches find in them.
use aidv.Prelude.{
  ℕ, zero, suc, ◌≤◌, ◌<◌, ◌≡◌, refl, Bool, true, false, ◌&&◌, [], ◌∷◌, arith, length, get_elem?,
  if◌then◌else◌, inl, inr, Bool-cases,
}
use aidv.Index.Search.{search-Splits}
use aidv.Index.Node.{KeyOrder, Pairs, key_lt, key_le, lower_bound, upper_bound}

module _ (o : KeyOrder) where
  -- Every key of the pairs is above.
  abbrev pub above : o.Key → Pairs o → Bool
  above k [] = true
  above k ((j, _) ∷ pairs) = o.lt k j && above k pairs

  abbrev pub Sorted : Pairs o → Type 0
  Sorted [] = Unit {0}
  Sorted ((k, _) ∷ pairs) = (above k pairs ≡ true) × Sorted pairs

  -- The number of leading keys below the target, and not above it.
  abbrev pub count_lt : o.Key → Pairs o → ℕ
  count_lt target [] = 0
  count_lt target ((k, _) ∷ pairs) = if o.lt k target then suc (count_lt target pairs) else 0

  abbrev pub count_le : o.Key → Pairs o → ℕ
  count_le target [] = 0
  count_le target ((k, _) ∷ pairs) =
      if (if o.lt k target then true else o.eq k target) then suc (count_le target pairs) else 0

  pub above_trans :
      (j k : o.Key) (pairs : Pairs o)
      → o.lt j k ≡ true
      → above k pairs ≡ true
      → above j pairs ≡ true
  above_trans j k [] h a = refl
  above_trans j k ((i, v) ∷ pairs) h a = ground (arith, above_trans j k pairs, o.lt_trans j k i)

  -- Above a key that is not below the target nothing is below it.
  lt_above :
      (k target : o.Key) (pairs : Pairs o) (i : ℕ)
      → above k pairs ≡ true
      → o.lt k target ≡ false
      → key_lt o target (get_elem? pairs i) ≡ false
  lt_above k target [] i a h = refl
  lt_above k target ((j, v) ∷ pairs) zero a h = ground (arith, o.lt_trans k j target)
  lt_above k target ((j, v) ∷ pairs) (suc i) a h = lt_above k target pairs i (ground arith) h

  le_above :
      (k target : o.Key) (pairs : Pairs o) (i : ℕ)
      → above k pairs ≡ true
      → (if o.lt k target then true else o.eq k target) ≡ false
      → key_le o target (get_elem? pairs i) ≡ false
  le_above k target [] i a h = refl
  le_above k target ((j, v) ∷ pairs) zero a h =
      ground (arith, o.lt_trans k j target, o.eq_iff j target)
  le_above k target ((j, v) ∷ pairs) (suc i) a h = le_above k target pairs i (ground arith) h

  lt_splits_below :
      (target : o.Key) (pairs : Pairs o) (i : ℕ)
      → i < count_lt target pairs
      → key_lt o target (get_elem? pairs i) ≡ true
  lt_splits_below target [] i h = elim h [ ]
  lt_splits_below target ((k, v) ∷ pairs) zero h = ground arith
  lt_splits_below target ((k, v) ∷ pairs) (suc i) h = lt_splits_below target pairs i (ground arith)

  lt_splits_above :
      (target : o.Key) (pairs : Pairs o) (i : ℕ)
      → Sorted pairs
      → count_lt target pairs ≤ i
      → key_lt o target (get_elem? pairs i) ≡ false
  lt_splits_above target [] i s h = refl
  lt_splits_above target ((k, v) ∷ pairs) zero s h = ground arith
  lt_splits_above target ((k, v) ∷ pairs) (suc i) s h = elim (Bool-cases (o.lt k target)) [
    | inl y ↦ lt_splits_above target pairs i s.1 (ground (arith, y))
    | inr n ↦ lt_above k target pairs i s.0 n
  ]

  le_splits_below :
      (target : o.Key) (pairs : Pairs o) (i : ℕ)
      → i < count_le target pairs
      → key_le o target (get_elem? pairs i) ≡ true
  le_splits_below target [] i h = elim h [ ]
  le_splits_below target ((k, v) ∷ pairs) zero h = ground arith
  le_splits_below target ((k, v) ∷ pairs) (suc i) h = le_splits_below target pairs i (ground arith)

  le_splits_above :
      (target : o.Key) (pairs : Pairs o) (i : ℕ)
      → Sorted pairs
      → count_le target pairs ≤ i
      → key_le o target (get_elem? pairs i) ≡ false
  le_splits_above target [] i s h = refl
  le_splits_above target ((k, v) ∷ pairs) zero s h = ground arith
  le_splits_above target ((k, v) ∷ pairs) (suc i) s h =
      elim (Bool-cases (if o.lt k target then true else o.eq k target)) [
        | inl y ↦ le_splits_above target pairs i s.1 (ground (arith, y))
        | inr n ↦ le_above k target pairs i s.0 n
      ]

  count_lt_le : (target : o.Key) (pairs : Pairs o) → count_lt target pairs ≤ length pairs
  count_lt_le target [] = omega arith
  count_lt_le target ((k, v) ∷ pairs) = ground (arith, count_lt_le target pairs)

  count_le_le : (target : o.Key) (pairs : Pairs o) → count_le target pairs ≤ length pairs
  count_le_le target [] = omega arith
  count_le_le target ((k, v) ∷ pairs) = ground (arith, count_le_le target pairs)

  -- In sorted pairs `lower_bound` is the number of keys below the target, and `upper_bound` the
  -- number of keys that are not above it.
  pub bounds-count :
      (pairs : Pairs o) (target : o.Key)
      → Sorted pairs
      → (lower_bound o pairs target ≡ count_lt target pairs)
        × (upper_bound o pairs target ≡ count_le target pairs)
  unfolding lower_bound upper_bound
  bounds-count pairs target s = (
    search-Splits _ (count_lt target pairs) (length pairs) 0 (length pairs)
        (lt_splits_below target pairs, λ i h. lt_splits_above target pairs i s h) (omega arith)
        (count_lt_le target pairs) (omega arith),
    search-Splits _ (count_le target pairs) (length pairs) 0 (length pairs)
        (le_splits_below target pairs, λ i h. le_splits_above target pairs i s h) (omega arith)
        (count_le_le target pairs) (omega arith),
  )
