-- ===== src/Index/Compare.antt =====
-- rmdb/src/index/ix_index_handle.h: both functions `ix_compare`, on the bytes of two keys.
pub mod Codes
pub mod Keys
pub mod Leaf
use aidv.Prelude.{
  ℕ, zero, suc, ◌+◌, ◌^◌, ◌%◌, Bool, true, false, List, [], ◌∷◌, ltb, if◌then◌else◌, take, drop,
}
use aidv.Recovery.LogRecord.{le_value}
use aidv.Recovery.Analysis.{rank}

-- `ColType`
pub data ColType : Type 0 where
  type_int type_float type_string : ColType

-- The sign of the int that is returned.
pub data Sign : Type 0 where
  below same over : Sign

abbrev pub sign_of : ℕ → ℕ → Sign
sign_of a b = if ltb a b then below else if ltb b a then over else same

-- `memcmp` of `n` bytes.
abbrev pub memcmp : ℕ → List ℕ → List ℕ → Sign
memcmp zero a b = same
memcmp (suc n) (x ∷ a) (y ∷ b) = elim (sign_of x y) [
  | below ↦ below
  | over ↦ over
  | same ↦ memcmp n a b
]
memcmp (suc n) a b = same

module _ (float_sign : List ℕ → List ℕ → Sign) where
  -- One column. An int is compared with its sign. `float_sign` stands for the comparison of two floats.
  unfoldable pub compare_column : ColType → ℕ → List ℕ → List ℕ → Sign
  compare_column type_int col_len a b =
      sign_of (rank (le_value (take 4 a))) (rank (le_value (take 4 b)))
  compare_column type_float col_len a b = float_sign (take 4 a) (take 4 b)
  compare_column type_string col_len a b = memcmp col_len a b

  -- The columns one after another, each with its length.
  unfoldable pub ix_compare : List (ColType × ℕ) → List ℕ → List ℕ → Sign
  ix_compare [] a b = same
  ix_compare ((col_type, col_len) ∷ cols) a b =
      let rest = ix_compare cols (drop col_len a) (drop col_len b) in
      elim (compare_column col_type col_len a b) [ below ↦ below | over ↦ over | same ↦ rest ]
