-- ===== src/Index/Node.antt =====
-- rmdb/src/index/ix_index_handle.{h,cpp}: `IxNodeHandle` of a leaf. The order of the keys is an
-- interface, which Index/Compare/Keys fills with `ix_compare`; the arrays of keys and of rids are one list of pairs.
pub mod Order
pub mod Leaf
use aidv.Prelude.{
  ℕ, suc, ◌+◌, ◌≡◌, refl, Bool, true, false, ◌&&◌, Option, none, some, List, [], ◌∷◌, ◌++◌, map,
  ltb, length, get_elem?, take, drop, if◌then◌else◌,
}
use aidv.Index.Search.{search}

-- `ix_compare(a, b) < 0` and `ix_compare(a, b) == 0`.
pub record KeyOrder : Type 1 where
  pub Key : Type 0
  pub lt : Key → Key → Bool
  pub eq : Key → Key → Bool
  pub eq_iff : (a b : Key) → eq a b ≡ true → a ≡ b
  pub eq_refl : (a : Key) → eq a a ≡ true
  pub lt_irrefl : (a : Key) → lt a a ≡ false
  pub lt_trans : (a b c : Key) → lt a b ≡ true → lt b c ≡ true → lt a c ≡ true
  pub lt_total : (a b : Key) → lt a b ≡ false → eq a b ≡ false → lt b a ≡ true

pub record Rid : Type 0 where
  pub page_no : ℕ
  pub slot_no : ℕ

module _ (o : KeyOrder) where
  abbrev pub Pairs : Type 0
  Pairs = List (o.Key × Rid)

  -- `ix_compare(get_key(i), target) < 0`, and `<= 0`.
  abbrev pub key_lt : o.Key → Option (o.Key × Rid) → Bool
  key_lt target none = false
  key_lt target (some (k, _)) = o.lt k target

  abbrev pub key_le : o.Key → Option (o.Key × Rid) → Bool
  key_le target none = false
  key_le target (some (k, _)) = if o.lt k target then true else o.eq k target

  unfoldable pub lower_bound : Pairs → o.Key → ℕ
  lower_bound pairs target =
      search (λ i. key_lt target (get_elem? pairs i)) (length pairs) 0 (length pairs)

  pub upper_bound : Pairs → o.Key → ℕ
  upper_bound pairs target =
      search (λ i. key_le target (get_elem? pairs i)) (length pairs) 0 (length pairs)

  -- `pos < get_size() && ix_compare(get_key(pos), key) == 0`, with the rid at the position.
  abbrev pub rid_if : o.Key → Option (o.Key × Rid) → Option Rid
  rid_if key none = none
  rid_if key (some (k, rid)) = if o.eq k key then some rid else none

  unfoldable pub leaf_lookup : Pairs → o.Key → Option Rid
  leaf_lookup pairs key = rid_if key (get_elem? pairs (lower_bound pairs key))

  pub insert_pairs : Pairs → ℕ → Pairs → Pairs
  insert_pairs pairs pos new = take pos pairs ++ new ++ drop pos pairs

  pub insert : Pairs → o.Key → Rid → Pairs
  insert pairs key value =
      let pos = lower_bound pairs key in
      elim (rid_if key (get_elem? pairs pos)) [
        | some _ ↦ pairs
        | none ↦ insert_pairs pairs pos ((key, value) ∷ [])
      ]

  pub erase_pair : Pairs → ℕ → Pairs
  erase_pair pairs pos = take pos pairs ++ drop (suc pos) pairs

  pub remove : Pairs → o.Key → Pairs
  remove pairs key =
      let pos = lower_bound pairs key in
      elim (rid_if key (get_elem? pairs pos)) [ some _ ↦ erase_pair pairs pos | none ↦ pairs ]
