-- ===== src/Execution/Tests.antt =====
-- Runs of the executors over lists of rows.
use aidv.Prelude.{
  ℕ, ◌≡◌, refl, Bool, true, false, Option, none, some, List, [], ◌∷◌, ◌++◌, ◌==◌, take, drop, map,
  arith, ap,
}
use aidv.Execution.{Executor, Scan, Yields, tail, ◌>>=◌}
use aidv.Execution.Limit.{LimitExecutor, new_limit, limited}
use aidv.Execution.Limit
use aidv.Execution.Limit.Rows.{limited-Yields, limited_again}
use aidv.Execution.Distinct
use aidv.Execution.Distinct.{DistinctExecutor, new_distinct, distinct}
use aidv.Execution.Distinct.Rows.{unique, distinct-Yields}
use aidv.Execution.NestedLoopJoin
use aidv.Execution.NestedLoopJoin.{Join, left_join, full_join, nested_loop_join, zeros}
use aidv.Execution.NestedLoopJoin.Reference.{join_rows}
use aidv.Execution.NestedLoopJoin.Rows.{nested_loop_join-Yields}
use aidv.Execution.NestedLoopJoin.Unmatched.{full_join-Yields}

-- A scan whose state is the rows that are left.
abbrev is_empty : {A : Type 0} → List A → Bool
is_empty [] = true
is_empty (r ∷ rs) = false

abbrev head : {A : Type 0} → List A → Option A
head [] = none
head (r ∷ rs) = some r

abbrev list_scan : {A : Type 0} → List A → Executor (List A) A
list_scan rows = record {
  begin_tuple = λ _. some rows;
  next_tuple = λ rs. some (tail rs);
  is_end = is_empty;
  next = head;
}

abbrev Remaining : {A : Type 0} → List A → List A → Type 0
Remaining rs s = s ≡ rs

list_scan-Scan : {A : Type 0} (rows : List A) → Scan (list_scan rows) rows Remaining
list_scan-Scan rows = record {
  begins = λ s. (rows, refl, refl);
  goes = λ rs s e. (tail s, refl, ap tail e);
  ends = λ s e. ap is_empty e;
  shows = λ r rs s e. (ap is_empty e, ap head e);
}

abbrev rows : List ℕ
rows = 1 ∷ 2 ∷ 3 ∷ 4 ∷ []

abbrev limit_two : LimitExecutor (List ℕ) ℕ
limit_two = new_limit [] 2 1

limited-Yields_example :
    (l' : LimitExecutor (List ℕ) ℕ) × (Limit.begin_tuple (list_scan rows) limit_two ≡ some l')
    × Yields (limited (list_scan rows)) (take 2 (drop 1 rows)) l'
limited-Yields_example =
    limited-Yields (list_scan rows) rows Remaining limit_two (list_scan-Scan rows)

limited_again_example :
    (l' : LimitExecutor (List ℕ) ℕ) × ((Limit.begin_tuple (list_scan rows) limit_two
        >>= Limit.begin_tuple (list_scan rows))
      ≡ some l')
    × Yields (limited (list_scan rows)) (take 2 rows) l'
limited_again_example =
    limited_again (list_scan rows) rows Remaining limit_two (list_scan-Scan rows) (omega arith)

abbrev lefts : List (List ℕ)
lefts = (1 ∷ []) ∷ (2 ∷ []) ∷ []

abbrev rights : List (List ℕ)
rights = (2 ∷ []) ∷ (3 ∷ []) ∷ (2 ∷ []) ∷ []

abbrev same_byte : List ℕ → List ℕ → Bool
same_byte [] bs = false
same_byte (a ∷ more) [] = false
same_byte (a ∷ more) (b ∷ bs) = a == b

abbrev new_join : Join (List (List ℕ)) (List (List ℕ))
new_join = record {
  left = [];
  right = [];
  is_end = true;
  left_record = none;
  right_record = none;
  left_has_match = false;
  null_pad_output = false;
  right_scan_pos = 0;
  right_matched = λ _. false;
  left_exhausted = false;
}

join_rows_lem :
    join_rows 1 left_join same_byte rights lefts ≡ (1 ∷ 0 ∷ []) ∷ (2 ∷ 2 ∷ []) ∷ (2 ∷ 2 ∷ []) ∷ []
join_rows_lem = refl

nested_loop_join-Yields_example :
    (j' : Join (List (List ℕ)) (List (List ℕ))) × (NestedLoopJoin.begin_tuple
        (list_scan lefts)
        (list_scan rights)
        1
        1
        left_join
        same_byte
        20
        new_join
      ≡ some j')
    × Yields
        (nested_loop_join (list_scan lefts) (list_scan rights) 1 1 left_join same_byte 20)
        (join_rows 1 left_join same_byte rights lefts)
        j'
nested_loop_join-Yields_example =
    nested_loop_join-Yields (list_scan lefts) (list_scan rights) 1 1 left_join same_byte 20 lefts
      rights Remaining Remaining new_join (list_scan-Scan lefts) (list_scan-Scan rights) refl
      (omega arith)

abbrev no_rows : List (List ℕ)
no_rows = []

full_join-Yields_example :
    (j' : Join (List (List ℕ)) (List (List ℕ))) × (NestedLoopJoin.begin_tuple
        (list_scan no_rows)
        (list_scan rights)
        1
        1
        full_join
        same_byte
        20
        new_join
      ≡ some j')
    × Yields
        (nested_loop_join (list_scan no_rows) (list_scan rights) 1 1 full_join same_byte 20)
        (map (λ row. zeros 1 ++ row) (tail rights))
        j'
full_join-Yields_example =
    full_join-Yields (list_scan no_rows) (list_scan rights) 1 1 same_byte 19 (2 ∷ []) (tail rights)
      Remaining Remaining new_join (list_scan-Scan no_rows) (list_scan-Scan rights)

unique_lem : unique rights ≡ (2 ∷ []) ∷ (3 ∷ []) ∷ []
unique_lem = refl

distinct-Yields_example :
    (d' : DistinctExecutor (List (List ℕ))) × (Distinct.begin_tuple
        (list_scan rights)
        4
        (new_distinct [])
      ≡ some d')
    × Yields (distinct (list_scan rights) 4) (unique rights) d'
distinct-Yields_example =
    distinct-Yields (list_scan rights) 4 rights Remaining (new_distinct []) (list_scan-Scan rights)
      (omega arith)
