-- ===== src/Execution/NestedLoopJoin/Rows.antt =====
-- The rows that an inner join and a left join give.
use aidv.Prelude.{
  ℕ, suc, ◌+◌, ◌*◌, ◌<◌, ◌≡◌, refl, Bool, true, false, Option, some, List, [], ◌∷◌, if◌then◌else◌,
  length, arith, inl, inr, ◌⊎◌, Bool-cases, Option-cases, sym, ◌∙◌,
}
use aidv.Execution.{Executor, Scan, Yields, ◌>>=◌}
use aidv.Execution.NestedLoopJoin.{
  JoinType, is_full, Join, begin_right, take_left, find_next_match, finish, opened, from_left,
  begin_tuple, next_tuple, next, shown_row, nested_loop_join,
}
use aidv.Execution.NestedLoopJoin.Reference.{join_rows}
use aidv.Execution.NestedLoopJoin.Search
use aidv.Execution.NestedLoopJoin.Advance

second_branch :
    {A : Type 0} (a b : Bool) (x y z : A)
    → a ≡ false
    → b ≡ true
    → (if a then x else if b then y else z) ≡ y
second_branch a b x y z e f = rw (e, f) refl

module _ {S T : Type 0} (e_left : Executor S (List ℕ)) (e_right : Executor T (List ℕ))
    (left_len right_len : ℕ) (join_type : JoinType) (check : List ℕ → List ℕ → Bool) (fuel : ℕ)
    (rights : List (List ℕ)) (at_left : List (List ℕ) → S → Type 0)
    (at_right : List (List ℕ) → T → Type 0) (lefts : List (List ℕ))
    (left_scan : Scan e_left lefts at_left) (right_scan : Scan e_right rights at_right)
    (not_full : is_full join_type ≡ false)
    (enough : length rights + length lefts * suc (length rights) < fuel) where
  abbrev Matched : List (List ℕ) → Join S T → Type 0
  Matched =
      Search.Matched e_left e_right left_len right_len join_type check fuel rights at_left at_right
        lefts left_scan right_scan

  abbrev Padded : List (List ℕ) → Join S T → Type 0
  Padded =
      Search.Padded e_left e_right left_len right_len join_type check fuel rights at_left at_right
        lefts left_scan right_scan

  abbrev Answers : List (List ℕ) → Option (Bool × Join S T) → Join S T → Type 0
  Answers =
      Advance.Answers e_left e_right left_len right_len join_type check fuel rights at_left at_right
        lefts left_scan right_scan

  abbrev search : Join S T → Option (Bool × Join S T)
  search = find_next_match e_left e_right left_len right_len join_type check fuel fuel

  abbrev with_right : Join S T → Option (Bool × Join S T)
  with_right =
      Advance.with_right e_left e_right left_len right_len join_type check fuel rights at_left
        at_right lefts left_scan right_scan search

  abbrev finished : Bool × Join S T → Option (Join S T)
  finished = finish e_left e_right left_len right_len join_type check fuel

  abbrev join : Executor (Join S T) (List ℕ)
  join = nested_loop_join e_left e_right left_len right_len join_type check fuel

  abbrev shown : Join S T → Option (List ℕ)
  shown = shown_row e_left e_right left_len right_len join_type check fuel

  abbrev later_rows : List (List ℕ) → List (List ℕ)
  later_rows = join_rows right_len join_type check rights

  -- A join that shows the first of the rows, or is at its end.
  abbrev Ready : List (List ℕ) → Join S T → Type 0
  Ready [] j = j.is_end ≡ true
  Ready (row ∷ rest) j =
      (j.is_end ≡ false) × (shown j ≡ some row) × (Matched rest j ⊎ Padded rest j)

  abbrev GoesTo : List (List ℕ) → Option (Join S T) → Type 0
  GoesTo rows answer = (j : Join S T) × (answer ≡ some j) × Ready rows j

  finish-false :
      (o : Bool × Join S T) → o.0 ≡ false → finished o ≡ some (record o.1 { is_end = true })
  unfolding finish
  finish-false (true, j) e = absurd cc
  finish-false (false, j) e = rw not_full refl

  finish-true : (o : Bool × Join S T) → o.0 ≡ true → finished o ≡ some o.1
  unfolding finish
  finish-true (true, j) e = refl
  finish-true (false, j) e = absurd cc

  finish-lem :
      (rows : List (List ℕ)) (answer : Option (Bool × Join S T)) (j : Join S T)
      → Answers rows answer j
      → j.is_end ≡ false
      → GoesTo rows (answer >>= finished)
  finish-lem [] answer j (o, e, (found, on_left), same) is_open =
      (record o.1 { is_end = true }, rw (e, ◌>>=◌) (finish-false o found), refl)
  finish-lem (row ∷ rest) answer j (o, e, (found, showing, next), same) is_open =
      (o.1, rw (e, ◌>>=◌) (finish-true o found), (same ∙ is_open, showing, next))

  from_left_lem :
      (j : Join S T)
      → from_left e_left e_right left_len right_len join_type check fuel j
        ≡ (with_right j >>= finished)
  unfolding from_left
  from_left_lem j =
      elim (Option-cases (begin_right e_left e_right left_len right_len join_type check fuel j)) [
        | inl e ↦ rw (e, ◌>>=◌) refl
        | inr (o, e) ↦
            rw (e, ◌>>=◌)
              (elim (Bool-cases o.0) [
                | inl y ↦ rw y (sym (finish-true (true, o.1) refl))
                | inr n ↦ rw n refl
              ])
      ]

  search-AnswersAfter :
      (ls : List (List ℕ))
      → Search.rounds e_left e_right left_len right_len join_type check fuel rights at_left at_right
          lefts left_scan right_scan [] ls
        < suc fuel
      → Advance.AnswersAfter e_left e_right left_len right_len join_type check fuel rights at_left
          at_right lefts left_scan right_scan ls search
  search-AnswersAfter ls few a bs ls' j e p short =
      Advance.find_next_match-lem e_left e_right left_len right_len join_type check fuel rights
        at_left at_right lefts left_scan right_scan fuel false a bs ls' j p
        (Advance.fewer e_left e_right left_len right_len join_type check fuel rights at_left
          at_right lefts left_scan right_scan fuel bs a ls ls' few e short)
        (omega arith)

  abbrev after_padding : Join S T → Option (Join S T)
  after_padding j = do
    left ← e_left.next_tuple j.left
    if e_left.is_end left
        then finished (false, record j { left = left })
        else from_left e_left e_right left_len right_len join_type check fuel
            (take_left e_left e_right left_len right_len join_type check fuel j left)

  after_padding_lem :
      (j : Join S T)
      → after_padding j ≡ (
          Advance.advance e_left e_right left_len right_len join_type check fuel rights at_left
            at_right lefts left_scan right_scan search j
          >>= finished)
  after_padding_lem j = elim (Option-cases (e_left.next_tuple j.left)) [
    | inl e ↦ rw (e, ◌>>=◌) refl
    | inr (left, e) ↦
        rw (e, ◌>>=◌)
          (elim (Bool-cases (e_left.is_end left)) [
            | inl y ↦ rw y refl
            | inr n ↦ rw n (
                from_left_lem
                  (take_left e_left e_right left_len right_len join_type check fuel j left))
          ])
  ]

  padded_next :
      (j : Join S T)
      → j.left_exhausted ≡ false
      → j.null_pad_output ≡ true
      → next_tuple e_left e_right left_len right_len join_type check fuel j ≡ after_padding j
  unfolding next_tuple
  padded_next j on_left pads =
      second_branch j.left_exhausted j.null_pad_output _ (after_padding j) _ on_left pads

  next_tuple-Ready :
      (rest : List (List ℕ)) (j : Join S T)
      → j.is_end ≡ false
      → Matched rest j ⊎ Padded rest j
      → GoesTo rest (next_tuple e_left e_right left_len right_len join_type check fuel j)
  unfolding next_tuple
  next_tuple-Ready rest j is_open (inl m) =
      let p = m.pending in
      let r =
        finish-lem _ (search j) j
          (Advance.find_next_match-lem e_left e_right left_len right_len join_type check fuel rights
            at_left at_right lefts left_scan right_scan fuel true m.a m.bs m.ls j p m.few
            (omega arith))
          is_open in
      simp (p.on_left, p.unpadded, m.to_come) r
  next_tuple-Ready rest j is_open (inr m) =
      let r =
        finish-lem _
          (Advance.advance e_left e_right left_len right_len join_type check fuel rights at_left
            at_right lefts left_scan right_scan search j)
          j
          (Advance.advance-lem e_left e_right left_len right_len join_type check fuel rights at_left
            at_right lefts left_scan right_scan search m.a m.ls j m.left_at m.on_left m.few
            (search-AnswersAfter m.ls (omega (arith, m.few))))
          is_open in
      rw m.to_come (r.0, padded_next j m.on_left m.pads ∙ (after_padding_lem j ∙ r.1), r.2)

  Ready-Yields : (rows : List (List ℕ)) (j : Join S T) → Ready rows j → Yields join rows j
  unfolding next
  Ready-Yields [] j r = r
  Ready-Yields (row ∷ rest) j (is_open, showing, more) =
      let n = next_tuple-Ready rest j is_open more in
      (is_open, simp is_open showing, (n.0, n.1, Ready-Yields rest n.0 n.2))

  -- From the start of the left scan.
  from_start :
      (ls : List (List ℕ)) (j : Join S T)
      → at_left ls j.left
      → j.left_exhausted ≡ false
      → length rights + length ls * suc (length rights) < fuel
      → GoesTo (later_rows ls) (
          if e_left.is_end j.left
          then finished (false, j)
          else from_left e_left e_right left_len right_len join_type check fuel (
              opened e_left e_right left_len right_len join_type check fuel
                (take_left e_left e_right left_len right_len join_type check fuel j j.left)))
  from_start [] j left_at on_left few = (
    record j { is_end = true },
    rw (left_scan.ends j.left left_at) (finish-false (false, j) refl),
    refl,
  )
  from_start (a ∷ ls) j left_at on_left few =
      let s = left_scan.shows a ls j.left left_at in
      let j' : Join S T =
        opened e_left e_right left_len right_len join_type check fuel
          (take_left e_left e_right left_len right_len join_type check fuel j j.left) in
      let r =
        finish-lem (later_rows (a ∷ ls)) (with_right j') j'
          (Advance.with_right-lem e_left e_right left_len right_len join_type check fuel rights
            at_left at_right lefts left_scan right_scan search a ls j' left_at s.1 refl refl on_left
            (omega (arith, few)) (search-AnswersAfter (a ∷ ls) (omega (arith, few))))
          refl in
      rw (s.0) (r.0, from_left_lem j' ∙ r.1, r.2)

  begin_tuple-Ready :
      (j : Join S T)
      → GoesTo
          (later_rows lefts)
          (begin_tuple e_left e_right left_len right_len join_type check fuel j)
  unfolding begin_tuple
  begin_tuple-Ready j =
      let b = left_scan.begins j.left in
      let j1 : Join S T = record j {
        left_exhausted = false;
        right_scan_pos = 0;
        right_matched = if is_full join_type then (λ _. false) else j.right_matched;
        left = b.0;
      } in
      let r = from_start lefts j1 b.2 refl enough in (r.0, rw (b.1, ◌>>=◌) r.1, r.2)

-- Over scans of left and right rows, a join that is not a full join shows, left row by left row, the left
-- row with each right row that `check` accepts, in order, and a left join also a left row that no
-- right row matches, with zeros, and then ends. More fuel than there are pairs of rows and rows of both
-- scans is enough.
pub nested_loop_join-Yields :
    {S T : Type 0} (e_left : Executor S (List ℕ)) (e_right : Executor T (List ℕ))
    (left_len right_len : ℕ) (join_type : JoinType) (check : List ℕ → List ℕ → Bool) (fuel : ℕ)
    (lefts rights : List (List ℕ)) (at_left : List (List ℕ) → S → Type 0)
    (at_right : List (List ℕ) → T → Type 0) (j : Join S T)
    → Scan e_left lefts at_left
    → Scan e_right rights at_right
    → is_full join_type ≡ false
    → length rights + length lefts * suc (length rights) < fuel
    → (j' : Join S T) × (begin_tuple e_left e_right left_len right_len join_type check fuel j
        ≡ some j')
      × Yields
          (nested_loop_join e_left e_right left_len right_len join_type check fuel)
          (join_rows right_len join_type check rights lefts)
          j'
nested_loop_join-Yields e_left e_right left_len right_len join_type check fuel lefts rights at_left
      at_right j left_scan right_scan not_full enough =
    let r =
      begin_tuple-Ready e_left e_right left_len right_len join_type check fuel rights at_left
        at_right lefts left_scan right_scan not_full enough j in
    (
      r.0,
      r.1,
      Ready-Yields e_left e_right left_len right_len join_type check fuel rights at_left at_right
          lefts left_scan right_scan not_full enough
          (join_rows right_len join_type check rights lefts) r.0 r.2,
    )
