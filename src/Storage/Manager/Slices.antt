-- ===== src/Storage/Manager/Slices.antt =====
-- The constructor of `BufferPoolManager`: how the frames are dealt out to the shards.
use aidv.Prelude.{
  ℕ, zero, suc, ◌+◌, ◌-◌, ◌*◌, ◌/◌, ◌%◌, ◌≤◌, ◌<◌, ◌≡◌, refl, ap, List, [], ◌∷◌, arith, ltb,
  if◌then◌else◌, length,
}
use native.Mathlib.Nat.{le-div_iff_mul-le}
use aidv.Storage.Manager.{shard_cnt, slices_from, slices}

-- The slices follow one another from the first number to the second, and have at least `least`
-- frames each.
abbrev pub Partition : ℕ → List (ℕ × ℕ) → ℕ → ℕ → Type 0
Partition least [] first last = first ≡ last
Partition least ((offset, size) ∷ rest) first last =
    (offset ≡ first) × (least ≤ size) × Partition least rest (first + size) last

-- How many of `left` shards from the `i`-th get one frame more.
abbrev larger : ℕ → ℕ → ℕ → ℕ
larger remainder i left = (if ltb remainder (i + left) then remainder else i + left) - i

slices_from-Partition :
    (least per remainder i offset left last : ℕ)
    → least ≤ per
    → offset + left * per + larger remainder i left ≡ last
    → Partition least (slices_from per remainder i offset left) offset last
unfolding slices_from
slices_from-Partition least per remainder i offset zero last h e = ground arith
slices_from-Partition least per remainder i offset (suc left) last h e = (
  refl,
  omega (arith, h),
  slices_from-Partition least per remainder (suc i) _ left last h (ground arith),
)

length-slices_from :
    (per remainder i offset left : ℕ) → length (slices_from per remainder i offset left) ≡ left
unfolding slices_from
length-slices_from per remainder i offset zero = refl
length-slices_from per remainder i offset (suc left) =
    ap suc (length-slices_from per remainder (suc i) _ left)

pub shard_cnt_bounds :
    (n : ℕ) → (0 < shard_cnt n) × (shard_cnt n ≤ 16) × (4 ≤ n → shard_cnt n * 4 ≤ n)
unfolding shard_cnt
shard_cnt_bounds n = ground arith

module _ (n : ℕ) where
  whole : 0 + shard_cnt n * (n / shard_cnt n) + larger (n % shard_cnt n) 0 (shard_cnt n) ≡ n
  whole = let (positive, _, _) = shard_cnt_bounds n in ground arith

  four_each : 4 ≤ n → 4 ≤ n / shard_cnt n
  four_each h =
      let (positive, _, fits) = shard_cnt_bounds n in
      (le-div_iff_mul-le positive).1 (omega (arith, fits h))

-- The slices of the shards are disjoint and make up the whole pool, one after the other. There are
-- between 1 and 16, and each has four frames at least if the pool has four.
pub slices-Partition :
    (pool_size : ℕ)
    → Partition 0 (slices pool_size) 0 pool_size
      × (0 < length (slices pool_size))
      × (length (slices pool_size) ≤ 16)
      × (4 ≤ pool_size → Partition 4 (slices pool_size) 0 pool_size)
unfolding slices
slices-Partition n =
    let c = shard_cnt n in
    (
      slices_from-Partition 0 (n / c) (n % c) 0 0 c n (omega arith) (whole n),
      rw (length-slices_from (n / c) (n % c) 0 0 c) (shard_cnt_bounds n).0,
      rw (length-slices_from (n / c) (n % c) 0 0 c) (shard_cnt_bounds n).1,
      λ h. slices_from-Partition 4 (n / c) (n % c) 0 0 c n (four_each n h) (whole n),
    )
