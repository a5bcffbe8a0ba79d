-- ===== src/Execution.antt =====
-- rmdb/src/execution/: the executors, as state and a few operations. `Executor` is `AbstractExecutor` of
-- executor_abstract.h: what an executor asks of its children and gives to its parent.
pub mod Limit
pub mod Distinct
pub mod NestedLoopJoin
mod Tests
use aidv.Prelude.{ℕ, ◌≡◌, Bool, true, false, Option, none, some, List, [], ◌∷◌}

infixl 5 ◌>>=◌
abbrev pub ◌>>=◌ : {A B : Type 0} → Option A → (A → Option B) → Option B
some a >>= f = f a
none >>= f = none

-- `none` in place of a state stands for a call that does not return.
pub record Executor (S A : Type 0) : Type 0 where
  pub begin_tuple : S → Option S
  pub next_tuple : S → Option S
  pub is_end : S → Bool
  pub next : S → Option A

abbrev pub tail : {A : Type 0} → List A → List A
tail [] = []
tail (r ∷ rs) = rs

-- What a parent relies on: after `begin_tuple` the executor shows these rows one after another, and then
-- stays at its end. `At rs s` says that `s` has the rows `rs` left.
pub record Scan {S A : Type 0} (e : Executor S A) (rows : List A) (At : List A → S → Type 0)
    : Type 0 where
  pub begins : (s : S) → (s' : S) × (e.begin_tuple s ≡ some s') × At rows s'
  pub goes :
      (rs : List A) (s : S) → At rs s → (s' : S) × (e.next_tuple s ≡ some s') × At (tail rs) s'
  pub ends : (s : S) → At [] s → e.is_end s ≡ true
  pub shows :
      (r : A) (rs : List A) (s : S) → At (r ∷ rs) s → (e.is_end s ≡ false) × (e.next s ≡ some r)

-- The executor shows these rows, one after another, and is then at its end.
abbrev pub Yields : {S A : Type 0} → Executor S A → List A → S → Type 0
Yields e [] s = e.is_end s ≡ true
Yields {S} e (r ∷ rs) s =
    (e.is_end s ≡ false)
    × (e.next s ≡ some r)
    × ((s' : S) × (e.next_tuple s ≡ some s') × Yields e rs s')
