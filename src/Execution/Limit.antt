-- ===== src/Execution/Limit.antt =====
-- `LimitExecutor` of rmdb/src/execution/executor_limit.h. A limit and an offset below 0 act as 0.
pub mod Rows
use aidv.Prelude.{
  ℕ, zero, suc, ◌≡◌, Bool, true, false, ◌||◌, Option, none, some, List, leb, ◌==◌, if◌then◌else◌,
}
use aidv.Execution.{Executor, ◌>>=◌}

pub record LimitExecutor (S A : Type 0) : Type 0 where
  pub child : S
  pub is_end : Bool
  pub limit : ℕ
  pub offset : ℕ
  pub count : ℕ
  pub current : Option A

abbrev pub new_limit : {S A : Type 0} → S → ℕ → ℕ → LimitExecutor S A
new_limit child limit offset = record {
  child = child;
  is_end = true;
  limit = limit;
  offset = offset;
  count = 0;
  current = none;
}

module _ {S A : Type 0} (e : Executor S A) where
  -- The loop that skips rows gives what is left of the offset.
  pub skip : ℕ → S → Option (ℕ × S)
  skip zero s = some (zero, s)
  skip (suc offset) s =
      let rest = e.next_tuple s >>= skip offset in if e.is_end s then some (suc offset, s) else rest

  pub begin_tuple : LimitExecutor S A → Option (LimitExecutor S A)
  begin_tuple l = do
    began ← e.begin_tuple l.child
    (offset, child) ← skip l.offset began
    if e.is_end child || l.limit == 0
        then some (record l { child = child; offset = offset; count = 0; is_end = true })
        else some (record l {
          child = child;
          offset = offset;
          current = e.next child;
          count = 1;
          is_end = false;
        })

  pub next_tuple : LimitExecutor S A → Option (LimitExecutor S A)
  next_tuple l =
      let rest = (do
        child ← e.next_tuple l.child
        if e.is_end child
            then some (record l { child = child; is_end = true })
            else some (record l { child = child; current = e.next child; count = suc l.count })) in
      if leb l.limit l.count then some (record l { is_end = true }) else rest

  -- `Next`
  pub next : LimitExecutor S A → Option A
  next l = if l.is_end then none else l.current

  abbrev pub limited : Executor (LimitExecutor S A) A
  limited = record {
    begin_tuple = begin_tuple;
    next_tuple = next_tuple;
    is_end = λ l. l.is_end;
    next = next;
  }
