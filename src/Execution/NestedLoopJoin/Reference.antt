-- ===== src/Execution/NestedLoopJoin/Reference.antt =====
-- The rows of a join, left row by left row.
use aidv.Prelude.{
  ℕ, ◌≡◌, refl, Bool, true, false, List, [], ◌∷◌, ◌++◌, if◌then◌else◌, inl, inr, Bool-cases, ap,
}
use aidv.Execution.NestedLoopJoin.{JoinType, keeps_left, zeros}

module _ (right_len : ℕ) (join_type : JoinType) (check : List ℕ → List ℕ → Bool) where
  abbrev pub matching : List ℕ → List (List ℕ) → List (List ℕ)
  matching a [] = []
  matching a (b ∷ bs) = let rest = matching a bs in if check a b then (a ++ b) ∷ rest else rest

  -- A left row that no right row matches, in a join that keeps it.
  abbrev pub padded : List ℕ → List (List ℕ)
  padded a = if keeps_left join_type then (a ++ zeros right_len) ∷ [] else []

  abbrev pub or_padded : List ℕ → List (List ℕ) → List (List ℕ)
  or_padded a [] = padded a
  or_padded a (row ∷ rows) = row ∷ rows

  abbrev pub join_rows : List (List ℕ) → List (List ℕ) → List (List ℕ)
  join_rows rights [] = []
  join_rows rights (a ∷ lefts) = or_padded a (matching a rights) ++ join_rows rights lefts

  -- The rows of a left row that are still to come, where it has had a match before or not.
  abbrev pub rows_from : Bool → List ℕ → List (List ℕ) → List (List ℕ)
  rows_from had_match a [] = if had_match then [] else padded a
  rows_from had_match a (b ∷ bs) =
      if check a b then (a ++ b) ∷ rows_from true a bs else rows_from had_match a bs

  rows_from-true : (a : List ℕ) (bs : List (List ℕ)) → rows_from true a bs ≡ matching a bs
  rows_from-true a [] = refl
  rows_from-true a (b ∷ bs) = elim (Bool-cases (check a b)) [
    | inl y ↦ rw y (ap (λ rows. (a ++ b) ∷ rows) (rows_from-true a bs))
    | inr n ↦ rw n (rows_from-true a bs)
  ]

  pub rows_from-false :
      (a : List ℕ) (bs : List (List ℕ)) → rows_from false a bs ≡ or_padded a (matching a bs)
  rows_from-false a [] = refl
  rows_from-false a (b ∷ bs) = elim (Bool-cases (check a b)) [
    | inl y ↦ rw y (ap (λ rows. (a ++ b) ∷ rows) (rows_from-true a bs))
    | inr n ↦ rw n (rows_from-false a bs)
  ]
