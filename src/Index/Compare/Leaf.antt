-- ===== src/Index/Compare/Leaf.antt =====
-- `IxNodeHandle::Insert` of a leaf whose keys `ix_compare` orders.
use aidv.Prelude.{ℕ, ◌≡◌, List, Option, some, if◌then◌else◌}
use aidv.Index.Node.{Rid, Pairs, insert}
use aidv.Index.Node.Order.{Sorted}
use aidv.Index.Node.Leaf.{find_key, either, insert-find_key}
use aidv.Index.Compare.{ColType, Sign, ix_compare}
use aidv.Index.Compare.Codes.{is_same}
use aidv.Index.Compare.Keys.{ColumnKey, column_order}

module _ (float_sign : List ℕ → List ℕ → Sign) (cols : List (ColType × ℕ)) where
  abbrev pub ColumnPairs : Type 0
  ColumnPairs = Pairs (column_order float_sign cols)

  -- The rid of the first key that `ix_compare` finds the same.
  abbrev pub find_column_key : ColumnKey float_sign cols → ColumnPairs → Option Rid
  find_column_key = find_key (column_order float_sign cols)

  -- The columns of an index are ints and strings. Inserting into pairs that `ix_compare` sorts keeps
  -- them sorted. The key is there then, with the old rid if it was there before and the new one if
  -- not, and every other key is as before.
  pub insert-find_column_key :
      (pairs : ColumnPairs) (s : Sorted (column_order float_sign cols) pairs)
      (key : ColumnKey float_sign cols) (value : Rid)
      → Sorted
          (column_order float_sign cols)
          (insert (column_order float_sign cols) pairs key value)
        × ((q : ColumnKey float_sign cols)
            → find_column_key q (insert (column_order float_sign cols) pairs key value) ≡ (
                if is_same (ix_compare float_sign cols key.0 q.0)
                then some (
                    either
                      (column_order float_sign cols)
                      pairs
                      s
                      key
                      (find_column_key key pairs)
                      value)
                else find_column_key q pairs))
  insert-find_column_key pairs s key value =
      insert-find_key (column_order float_sign cols) pairs s key value
