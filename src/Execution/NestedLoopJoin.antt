-- ===== src/Execution/NestedLoopJoin.antt =====
-- `NestedLoopJoinExecutor` of rmdb/src/execution/executor_nestedloop_join.h. A record is its bytes.
-- `check` is what the conditions say of a left and a right record. `right_matched` is false behind the end
-- of the vector.
pub mod Reference
pub mod Search
pub mod Advance
pub mod Rows
pub mod Unmatched
use aidv.Prelude.{
  ℕ, zero, suc, ◌≡◌, Bool, true, false, ◌&&◌, ◌||◌, not, Option, none, some, List, [], ◌∷◌, ◌++◌,
  ◌==◌, if◌then◌else◌,
}
use aidv.Execution.{Executor, ◌>>=◌}

pub data JoinType : Type 0 where
  inner_join left_join right_join full_join : JoinType

abbrev pub is_full : JoinType → Bool
is_full inner_join = false
is_full left_join = false
is_full right_join = false
is_full full_join = true

-- `LEFT_JOIN` or `FULL_JOIN`
abbrev pub keeps_left : JoinType → Bool
keeps_left inner_join = false
keeps_left left_join = true
keeps_left right_join = false
keeps_left full_join = true

abbrev pub zeros : ℕ → List ℕ
zeros zero = []
zeros (suc len) = 0 ∷ zeros len

pub record Join (S T : Type 0) : Type 0 where
  pub left : S
  pub right : T
  pub is_end : Bool
  pub left_record : Option (List ℕ)
  pub right_record : Option (List ℕ)
  pub left_has_match : Bool
  pub null_pad_output : Bool
  pub right_scan_pos : ℕ
  pub right_matched : ℕ → Bool
  pub left_exhausted : Bool

module _ {S T : Type 0} (e_left : Executor S (List ℕ)) (e_right : Executor T (List ℕ))
    (left_len right_len : ℕ) (join_type : JoinType) (check : List ℕ → List ℕ → Bool)
    (fuel : ℕ) where
  pub check_all_conds : Join S T → Bool
  check_all_conds j = elim j.left_record [
    | none ↦ false
    | some a ↦ elim j.right_record [ none ↦ false | some b ↦ check a b ]
  ]

  -- The right row that has been read, and whether it matches.
  pub try_right : Join S T → Bool × Join S T
  try_right j =
      let j' : Join S T = record j {
        right_record = e_right.next j.right;
        right_scan_pos = suc j.right_scan_pos;
      } in
      if check_all_conds j'
      then (
        true,
        record j' {
          left_has_match = true;
          right_matched =
              if is_full join_type
              then (λ pos. if pos == j'.right_scan_pos then true else j'.right_matched pos)
              else j'.right_matched;
        },
      )
      else (false, j')

  -- The right scan from its start, up to its first row.
  pub begin_right : Join S T → Option (Bool × Join S T)
  begin_right j = do
    right ← e_right.begin_tuple j.right
    let j' : Join S T = record j { right = right; right_scan_pos = 0 } in
        if e_right.is_end right then some (false, j') else some (try_right j')

  -- The next left row.
  abbrev pub take_left : Join S T → S → Join S T
  take_left j left = record j {
    left = left;
    left_record = e_left.next left;
    left_has_match = false;
    null_pad_output = false;
  }

  -- Where the right rows are at their end.
  pub right_exhausted : (Join S T → Option (Bool × Join S T)) → Join S T → Option (Bool × Join S T)
  right_exhausted again j =
      if not j.left_has_match && keeps_left join_type
      then some (true, record j { null_pad_output = true; left_has_match = true })
      else (do
        left ← e_left.next_tuple j.left
        if e_left.is_end left then some (false, record j { left = left }) else (do
          (found, j') ← begin_right (take_left j left)
          if found then some (true, j') else again j'))

  pub find_next_match : ℕ → Join S T → Option (Bool × Join S T)
  find_next_match zero j = none
  find_next_match (suc left) j = do
    right ← e_right.next_tuple j.right
    let j1 : Join S T = record j { right = right } in
        if e_right.is_end right
        then right_exhausted (find_next_match left) j1
        else let (found, j2) = try_right j1 in
          if found
          then some (true, record j2 { null_pad_output = false })
          else find_next_match left j2

  pub find_unmatched_right : ℕ → Join S T → Option (Bool × Join S T)
  find_unmatched_right zero j = none
  find_unmatched_right (suc left) j = do
    right ← e_right.next_tuple j.right
    let j1 : Join S T = record j { right = right } in
        let j2 : Join S T = record j1 {
          right_record = e_right.next right;
          right_scan_pos = suc j.right_scan_pos;
        } in
        let rest = find_unmatched_right left j2 in
        if e_right.is_end right
        then some (false, j1)
        else if not (j2.right_matched j2.right_scan_pos)
        then some (true, j2)
        else rest

  pub start_unmatched_right_phase : Join S T → Option (Join S T)
  start_unmatched_right_phase j = do
    right ← e_right.begin_tuple j.right
    (found, j') ←
        find_unmatched_right fuel
          (record j { left_exhausted = true; right = right; right_scan_pos = 0 })
    some (record j' { is_end = not found })

  -- What follows a search for a match.
  pub finish : Bool × Join S T → Option (Join S T)
  finish (true, j) = some j
  finish (false, j) =
      if is_full join_type then start_unmatched_right_phase j else some (record j { is_end = true })

  abbrev pub opened : Join S T → Join S T
  opened j = record j { is_end = false }

  -- The search from the left row that has just been taken.
  pub from_left : Join S T → Option (Join S T)
  from_left j = do
    (found, j') ← begin_right j
    if found then some j' else (find_next_match fuel j' >>= finish)

  pub begin_tuple : Join S T → Option (Join S T)
  begin_tuple j =
      let j1 : Join S T = record j {
        left_exhausted = false;
        right_scan_pos = 0;
        right_matched = if is_full join_type then (λ _. false) else j.right_matched;
      } in
      do
        left ← e_left.begin_tuple j.left
        if e_left.is_end left
            then finish (false, record j1 { left = left })
            else from_left (opened (take_left (record j1 { left = left }) left))

  pub next_tuple : Join S T → Option (Join S T)
  next_tuple j =
      if j.left_exhausted
      then (do
        (found, j') ← find_unmatched_right fuel j
        some (if found then j' else record j' { is_end = true }))
      else if j.null_pad_output
      then (do
        left ← e_left.next_tuple j.left
        if e_left.is_end left
            then finish (false, record j { left = left })
            else from_left (take_left j left))
      else (find_next_match fuel j >>= finish)

  -- The row of two records, of which the first or the second may be missing.
  abbrev pub joined_row : Option (List ℕ) → Option (List ℕ) → Option (List ℕ)
  joined_row left right = do a ← left; b ← right; some (a ++ b)

  -- `Next`
  pub shown_row : Join S T → Option (List ℕ)
  shown_row j =
      if j.left_exhausted
      then joined_row (some (zeros left_len)) j.right_record
      else if j.null_pad_output
      then joined_row j.left_record (some (zeros right_len))
      else joined_row j.left_record j.right_record

  pub next : Join S T → Option (List ℕ)
  next j = if j.is_end then none else shown_row j

  abbrev pub nested_loop_join : Executor (Join S T) (List ℕ)
  nested_loop_join = record {
    begin_tuple = begin_tuple;
    next_tuple = next_tuple;
    is_end = λ j. j.is_end;
    next = next;
  }
