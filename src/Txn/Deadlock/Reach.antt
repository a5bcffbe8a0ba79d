-- ===== src/Txn/Deadlock/Reach.antt =====
-- Paths in a wait-for graph.
use aidv.Prelude.{ℕ, ◌≡◌, true, ◌⊎◌, listed}
use aidv.Txn.Deadlock.{Graph}

-- A path of one edge or more.
pub data Reaches (wait_for : Graph) (a : ℕ) : ℕ → Type 0 where
  one : (b : ℕ) → listed b (wait_for a) ≡ true → Reaches wait_for a b
  more : (b c : ℕ) → Reaches wait_for a b → listed c (wait_for b) ≡ true → Reaches wait_for a c

-- Or of none.
abbrev pub Leads : Graph → ℕ → ℕ → Type 0
Leads wait_for a b = (a ≡ b) ⊎ Reaches wait_for a b

-- Where a set has all that `a` waits for and all that its members wait for, it has all that `a` reaches.
pub Reaches-listed :
    (wait_for : Graph) (a : ℕ) (Inside : ℕ → Type 0)
    → ((b : ℕ) → listed b (wait_for a) ≡ true → Inside b)
    → ((b c : ℕ) → Inside b → listed c (wait_for b) ≡ true → Inside c)
    → (c : ℕ) → Reaches wait_for a c
    → Inside c
Reaches-listed wait_for a Inside first closed c (one _ e) = first c e
Reaches-listed wait_for a Inside first closed c (more b _ r e) =
    closed b c (Reaches-listed wait_for a Inside first closed b r) e
