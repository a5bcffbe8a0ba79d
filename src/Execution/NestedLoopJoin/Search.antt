-- ===== src/Execution/NestedLoopJoin/Search.antt =====
-- The search for the next match.
use aidv.Prelude.{
  ℕ, suc, ◌+◌, ◌*◌, ◌≤◌, ◌<◌, ◌≡◌, refl, Bool, true, false, Option, some, List, [], ◌∷◌, ◌++◌,
  if◌then◌else◌, length, arith, inl, inr, ◌⊎◌, Bool-cases, ap, ◌∙◌,
}
use aidv.Execution.{Executor, Scan, ◌>>=◌}
use aidv.Execution.NestedLoopJoin.{
  JoinType, Join, check_all_conds, try_right, begin_right, shown_row,
}
use aidv.Execution.NestedLoopJoin.Reference.{join_rows, rows_from}

module _ {S T : Type 0} (e_left : Executor S (List ℕ)) (e_right : Executor T (List ℕ))
    (left_len right_len : ℕ) (join_type : JoinType) (check : List ℕ → List ℕ → Bool) (fuel : ℕ)
    (rights : List (List ℕ)) (at_left : List (List ℕ) → S → Type 0)
    (at_right : List (List ℕ) → T → Type 0) (lefts : List (List ℕ))
    (left_scan : Scan e_left lefts at_left) (right_scan : Scan e_right rights at_right) where
  abbrev later_rows : List (List ℕ) → List (List ℕ)
  later_rows = join_rows right_len join_type check rights

  abbrev own_rows : Bool → List ℕ → List (List ℕ) → List (List ℕ)
  own_rows = rows_from right_len join_type check

  -- How many rounds the search can take.
  abbrev pub rounds : List (List ℕ) → List (List ℕ) → ℕ
  rounds bs ls = length bs + length ls * suc (length rights)

  -- The left row `a` is read, the rows `bs` of the right scan have not been, and the left rows `ls`.
  pub record Pending (had_match : Bool) (a : List ℕ) (bs ls : List (List ℕ)) (j : Join S T)
      : Type 0 where
    pub left_at : at_left (a ∷ ls) j.left
    pub left_is : j.left_record ≡ some a
    pub right_next : (r : T) × (e_right.next_tuple j.right ≡ some r) × at_right bs r
    pub matched : j.left_has_match ≡ had_match
    pub unpadded : j.null_pad_output ≡ false
    pub on_left : j.left_exhausted ≡ false

  -- After a match, and after a left row without one.
  pub record Matched (rest : List (List ℕ)) (j : Join S T) : Type 0 where
    pub a : List ℕ
    pub bs : List (List ℕ)
    pub ls : List (List ℕ)
    pub pending : Pending true a bs ls j
    pub to_come : rest ≡ own_rows true a bs ++ later_rows ls
    pub few : rounds bs ls < fuel

  pub record Padded (rest : List (List ℕ)) (j : Join S T) : Type 0 where
    pub a : List ℕ
    pub ls : List (List ℕ)
    pub left_at : at_left (a ∷ ls) j.left
    pub pads : j.null_pad_output ≡ true
    pub on_left : j.left_exhausted ≡ false
    pub to_come : rest ≡ later_rows ls
    pub few : rounds [] ls < fuel

  abbrev pub shown : Join S T → Option (List ℕ)
  shown = shown_row e_left e_right left_len right_len join_type check fuel

  -- The search has ended, in front of these rows.
  abbrev pub Found : List (List ℕ) → Bool × Join S T → Type 0
  Found [] (found, j) = (found ≡ false) × (j.left_exhausted ≡ false)
  Found (row ∷ rest) (found, j) =
      (found ≡ true) × (shown j ≡ some row) × (Matched rest j ⊎ Padded rest j)

  abbrev try : Join S T → Bool × Join S T
  try = try_right e_left e_right left_len right_len join_type check fuel

  -- A right row that is read: it matches, or the search goes on.
  pub try-lem :
      (h : Bool) (a b : List ℕ) (bs ls : List (List ℕ)) (j : Join S T)
      → at_left (a ∷ ls) j.left
      → j.left_record ≡ some a
      → at_right (b ∷ bs) j.right
      → j.left_has_match ≡ h
      → j.null_pad_output ≡ false
      → j.left_exhausted ≡ false
      → ((try j).0 ≡ check a b)
        × Pending (if check a b then true else h) a bs ls (try j).1
        × ((try j).1.right_record ≡ some b)
        × ((try j).1.is_end ≡ j.is_end)
  unfolding try_right check_all_conds
  try-lem h a b bs ls j left_at left_is right_at matched unpadded on_left =
      let g = right_scan.goes (b ∷ bs) j.right right_at in
      let s = right_scan.shows b bs j.right right_at in
      elim (Bool-cases (check a b)) [
        | inl y ↦
            rw (left_is, s.1, y)
              (
                refl,
                record {
                  left_at = left_at;
                  left_is = refl;
                  right_next = g;
                  matched = refl;
                  unpadded = unpadded;
                  on_left = on_left;
                },
                refl,
                refl,
              )
        | inr n ↦
            rw (left_is, s.1, n)
              (
                refl,
                record {
                  left_at = left_at;
                  left_is = refl;
                  right_next = g;
                  matched = matched;
                  unpadded = unpadded;
                  on_left = on_left;
                },
                refl,
                refl,
              )
      ]

  -- The right rows from the start, for a left row that has just been taken.
  abbrev pub BegunRight : List ℕ → List (List ℕ) → List (List ℕ) → Bool × Join S T → Type 0
  BegunRight a rows ls (found, j) =
      if found
      then Found (own_rows false a rows ++ later_rows ls) (true, j)
      else ((bs : List (List ℕ)) × Pending false a bs ls j
          × (own_rows false a rows ≡ own_rows false a bs)
          × (length bs ≤ length rows))

  -- A match of the row that has just been read.
  pub match-Found :
      (a b : List ℕ) (bs ls rest : List (List ℕ)) (j : Join S T)
      → Pending true a bs ls j
      → j.right_record ≡ some b
      → rounds bs ls < fuel
      → rest ≡ own_rows true a bs ++ later_rows ls
      → Found ((a ++ b) ∷ rest) (true, j)
  unfolding shown_row
  match-Found a b bs ls rest j p right_is few e = (
    refl,
    rw (p.on_left, p.unpadded, p.left_is, right_is) refl,
    inl (record { a = a; bs = bs; ls = ls; pending = p; to_come = e; few = few }),
  )

  abbrev first_right : Join S T → Option (Bool × Join S T)
  first_right j = if e_right.is_end j.right then some (false, j) else some (try j)

  first_right-lem :
      (a : List ℕ) (rows ls : List (List ℕ)) (j : Join S T)
      → at_left (a ∷ ls) j.left
      → j.left_record ≡ some a
      → at_right rows j.right
      → j.left_has_match ≡ false
      → j.null_pad_output ≡ false
      → j.left_exhausted ≡ false
      → rounds rows ls < fuel
      → (o : Bool × Join S T) × (first_right j ≡ some o)
        × BegunRight a rows ls o
        × (o.1.is_end ≡ j.is_end)
  first_right-lem a [] ls j left_at left_is right_at matched unpadded on_left few = (
    (false, j),
    rw (right_scan.ends j.right right_at) refl,
    (
      [],
      record {
        left_at = left_at;
        left_is = left_is;
        right_next = right_scan.goes [] j.right right_at;
        matched = matched;
        unpadded = unpadded;
        on_left = on_left;
      },
      refl,
      omega arith,
    ),
    refl,
  )
  first_right-lem a (b ∷ bs) ls j left_at left_is right_at matched unpadded on_left few =
      let t = try-lem false a b bs ls j left_at left_is right_at matched unpadded on_left in
      let open_right = (right_scan.shows b bs j.right right_at).0 in
      let less : rounds bs ls < fuel = omega (arith, few) in
      elim (Bool-cases (check a b)) [
        | inl y ↦
            let p : Pending true a bs ls (try j).1 = rw y at t.1 in
            (
              (true, (try j).1),
              rw (open_right) (ap (λ (found : Bool). some (found, (try j).1)) (t.0 ∙ y)),
              rw y (match-Found a b bs ls _ (try j).1 p t.2 less refl),
              t.3,
            )
        | inr n ↦
            let p : Pending false a bs ls (try j).1 = rw n at t.1 in
            (
              (false, (try j).1),
              rw (open_right) (ap (λ (found : Bool). some (found, (try j).1)) (t.0 ∙ n)),
              rw n (bs, p, refl, omega arith),
              t.3,
            )
      ]

  pub begin_right-lem :
      (a : List ℕ) (ls : List (List ℕ)) (j : Join S T)
      → at_left (a ∷ ls) j.left
      → j.left_record ≡ some a
      → j.left_has_match ≡ false
      → j.null_pad_output ≡ false
      → j.left_exhausted ≡ false
      → rounds rights ls < fuel
      → (o : Bool × Join S T) × (begin_right e_left e_right left_len right_len join_type check fuel
            j
          ≡ some o)
        × BegunRight a rights ls o
        × (o.1.is_end ≡ j.is_end)
  unfolding begin_right
  begin_right-lem a ls j left_at left_is matched unpadded on_left few =
      let b = right_scan.begins j.right in
      let r =
        first_right-lem a rights ls (record j { right = b.0; right_scan_pos = 0 }) left_at left_is
          b.2 matched unpadded on_left few in
      (r.0, rw (b.1, ◌>>=◌) r.1, r.2, r.3)
