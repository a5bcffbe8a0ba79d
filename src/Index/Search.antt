-- ===== src/Index/Search.antt =====
-- The loop of `lower_bound` and `upper_bound` in rmdb/src/index/ix_index_handle.cpp.
use aidv.Prelude.{
  ℕ, zero, suc, ◌+◌, ◌-◌, ◌/◌, ◌≤◌, ◌<◌, ◌≡◌, Bool, true, false, arith, ltb, if◌then◌else◌, inl,
  inr, Bool-cases,
}

-- `test i` is whether the key at `i` is too small. The distance of the bounds is fuel enough.
unfoldable pub search : (ℕ → Bool) → ℕ → ℕ → ℕ → ℕ
search test zero lo hi = lo
search test (suc fuel) lo hi =
    let mid = lo + (hi - lo) / 2 in
    let right = search test fuel (suc mid) hi in
    let left = search test fuel lo mid in
    if ltb lo hi then (if test mid then right else left) else lo

-- The test holds below the bound and fails from it on.
abbrev pub Splits : (ℕ → Bool) → ℕ → Type 0
Splits test bound = ((i : ℕ) → i < bound → test i ≡ true) × ((i : ℕ) → bound ≤ i → test i ≡ false)

-- If the test holds up to some bound between the two and fails from there on, the loop finds the
-- bound, with as much fuel as the two are apart.
pub search-Splits :
    (test : ℕ → Bool) (bound fuel lo hi : ℕ)
    → Splits test bound
    → lo ≤ bound
    → bound ≤ hi
    → hi ≤ lo + fuel
    → search test fuel lo hi ≡ bound
unfolding search
search-Splits test bound zero lo hi s a b c = omega arith
search-Splits test bound (suc fuel) lo hi s a b c =
    let mid = lo + (hi - lo) / 2 in
    elim (Bool-cases (ltb lo hi)) [
      | inr n ↦ rw (n) (ground (arith, n))
      | inl y ↦ elim (Bool-cases (test mid)) [
        | inl t ↦
            rw (y, t)
              (search-Splits test bound fuel (suc mid) hi s (ground (arith, s.1 mid)) b
                (omega arith))
        | inr t ↦
            rw (y, t)
              (search-Splits test bound fuel lo mid s a (ground (arith, s.0 mid)) (ground arith))
      ]
    ]
