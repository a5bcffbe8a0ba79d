-- ===== src/Index/Tests.antt =====
-- Leaves with numbers and with columns as keys.
use aidv.Prelude.{ℕ, ◌≡◌, refl, true, false, some, List, [], ◌∷◌, arith, ◌==◌, ltb, if◌then◌else◌}
use aidv.Index.FileHeader.{IxFileHdr}
use aidv.Index.Search.{search}
use aidv.Index.Node.{KeyOrder, Rid, Pairs, lower_bound, leaf_lookup, insert}
use aidv.Index.Node.Order.{Sorted}
use aidv.Index.Compare.{ColType, type_int, type_string, Sign, same, compare_column, ix_compare}
use aidv.Index.Compare.Codes.{is_same}
use aidv.Index.Compare.Keys.{ColumnKey, column_order}
use aidv.Index.Compare.Leaf.{ColumnPairs, find_column_key, insert-find_column_key}

pub numbers_eq : (a b : ℕ) → (a == b) ≡ true → a ≡ b
numbers_eq a b h = ground arith

pub numbers_refl : (a : ℕ) → (a == a) ≡ true
numbers_refl a = ground arith

pub numbers_irrefl : (a : ℕ) → ltb a a ≡ false
numbers_irrefl a = ground arith

pub numbers_trans : (a b c : ℕ) → ltb a b ≡ true → ltb b c ≡ true → ltb a c ≡ true
numbers_trans a b c h k = ground arith

pub numbers_total : (a b : ℕ) → ltb a b ≡ false → (a == b) ≡ false → ltb b a ≡ true
numbers_total a b h k = ground arith

abbrev numbers : KeyOrder
numbers = record {
  Key = ℕ;
  lt = λ a b. ltb a b;
  eq = λ a b. a == b;
  eq_iff = numbers_eq;
  eq_refl = numbers_refl;
  lt_irrefl = numbers_irrefl;
  lt_trans = numbers_trans;
  lt_total = numbers_total;
}

abbrev slot : ℕ → Rid
slot n = record { page_no = 1; slot_no = n }

abbrev leaf : Pairs numbers
leaf = (2, slot 0) ∷ (5, slot 1) ∷ (9, slot 2) ∷ []

leaf-Sorted : Sorted numbers leaf
leaf-Sorted = (refl, (refl, (refl, tt)))

five_is_found : leaf_lookup numbers leaf 5 ≡ some (slot 1)
unfolding leaf_lookup lower_bound search
five_is_found = refl

-- The columns are an int and a string of two bytes; -1 is below 2, whatever follows.
abbrev columns : List (ColType × ℕ)
columns = (type_int, 4) ∷ (type_string, 2) ∷ []

abbrev no_floats : List ℕ → List ℕ → Sign
no_floats a b = same

abbrev minus_one : ColumnKey no_floats columns
minus_one = (255 ∷ 255 ∷ 255 ∷ 255 ∷ 98 ∷ 0 ∷ [], refl)

abbrev two_a : ColumnKey no_floats columns
two_a = (2 ∷ 0 ∷ 0 ∷ 0 ∷ 97 ∷ 0 ∷ [], refl)

abbrev two_b : ColumnKey no_floats columns
two_b = (2 ∷ 0 ∷ 0 ∷ 0 ∷ 98 ∷ 0 ∷ [], refl)

abbrev column_leaf : ColumnPairs no_floats columns
column_leaf = (minus_one, slot 0) ∷ (two_b, slot 1) ∷ []

column_leaf-Sorted : Sorted (column_order no_floats columns) column_leaf
unfolding ix_compare compare_column
column_leaf-Sorted = (refl, (refl, tt))

insert-find_column_key_example :
    Sorted
      (column_order no_floats columns)
      (insert (column_order no_floats columns) column_leaf two_a (slot 2))
    × ((q : ColumnKey no_floats columns)
        → find_column_key no_floats columns q
            (insert (column_order no_floats columns) column_leaf two_a (slot 2))
          ≡ (if is_same (ix_compare no_floats columns two_a.0 q.0)
              then some (slot 2)
              else find_column_key no_floats columns q column_leaf))
unfolding ix_compare compare_column
insert-find_column_key_example =
    insert-find_column_key no_floats columns column_leaf column_leaf-Sorted two_a (slot 2)

-- The header of an index over two columns, and a header with no columns.
abbrev two_columns : IxFileHdr
two_columns = record {
  first_free_page_no = 4294967295;
  num_pages = 3;
  root_page = 2;
  col_num = 2;
  col_types = 0 ∷ 2 ∷ [];
  col_lens = 4 ∷ 16 ∷ [];
  col_tot_len = 20;
  btree_order = 145;
  keys_size = 2920;
  first_leaf = 2;
  last_leaf = 2;
  tot_len = 56;
}

abbrev no_columns : IxFileHdr
no_columns = record two_columns { col_num = 0; col_types = []; col_lens = []; tot_len = 0 }
