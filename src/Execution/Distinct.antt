-- ===== src/Execution/Distinct.antt =====
-- `DistinctExecutor` of rmdb/src/execution/executor_distinct.h. A record is its bytes, and `seen_` the list
-- of the rows that have been shown. A child that is not at its end has a record.
pub mod Rows
use aidv.Prelude.{
  ℕ, zero, suc, Bool, true, false, Option, none, some, List, [], ◌∷◌, if◌then◌else◌, same_bytes,
}
use aidv.Execution.{Executor, ◌>>=◌}

pub record DistinctExecutor (S : Type 0) : Type 0 where
  pub child : S
  pub is_end : Bool
  pub current : Option (List ℕ)
  pub seen : List (List ℕ)

abbrev pub new_distinct : {S : Type 0} → S → DistinctExecutor S
new_distinct child = record { child = child; is_end = true; current = none; seen = [] }

abbrev pub was_seen : List ℕ → List (List ℕ) → Bool
was_seen row [] = false
was_seen row (r ∷ rows) = if same_bytes r row then true else was_seen row rows

module _ {S : Type 0} (e : Executor S (List ℕ)) (fuel : ℕ) where
  -- A row that has not been shown before.
  abbrev pub show : DistinctExecutor S → S → List ℕ → DistinctExecutor S
  show d child row = record d { child = child; current = some row; seen = row ∷ d.seen }

  pub begin_tuple : DistinctExecutor S → Option (DistinctExecutor S)
  begin_tuple d = do
    child ← e.begin_tuple d.child
    let d' : DistinctExecutor S = record d { child = child; seen = []; is_end = e.is_end child } in
        if e.is_end child then some d' else (do row ← e.next child; some (show d' child row))

  -- The loop of `nextTuple`.
  pub find_new : ℕ → DistinctExecutor S → Option (DistinctExecutor S)
  find_new zero d = none
  find_new (suc left) d =
      let more = (do
        child ← e.next_tuple d.child
        if e.is_end child then some (record d { child = child; is_end = true }) else (do
          row ← e.next child
          let rest = find_new left (record d { child = child }) in
              if was_seen row d.seen then rest else some (show d child row))) in
      if e.is_end d.child then some (record d { is_end = true }) else more

  abbrev pub next_tuple : DistinctExecutor S → Option (DistinctExecutor S)
  next_tuple = find_new fuel

  -- `Next`
  pub next : DistinctExecutor S → Option (List ℕ)
  next d = if d.is_end then none else d.current

  abbrev pub distinct : Executor (DistinctExecutor S) (List ℕ)
  distinct = record {
    begin_tuple = begin_tuple;
    next_tuple = next_tuple;
    is_end = λ d. d.is_end;
    next = next;
  }
