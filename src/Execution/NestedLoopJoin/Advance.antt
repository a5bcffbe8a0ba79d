-- ===== src/Execution/NestedLoopJoin/Advance.antt =====
-- The search from one left row to the next, and as a whole.
use aidv.Prelude.{
  ℕ, zero, suc, ◌≤◌, ◌<◌, ◌≡◌, refl, Bool, true, false, not, ◌&&◌, Option, some, List, [], ◌∷◌,
  ◌++◌, if◌then◌else◌, length, arith, inl, inr, Bool-cases, sym, ap, ◌∙◌, subst,
}
use aidv.Execution.{Executor, Scan, ◌>>=◌}
use aidv.Execution.NestedLoopJoin.{
  JoinType, keeps_left, Join, try_right, begin_right, take_left, right_exhausted, find_next_match,
  shown_row,
}
use aidv.Execution.NestedLoopJoin.Reference.{join_rows, rows_from, rows_from-false}
use aidv.Execution.NestedLoopJoin.Search

module _ {S T : Type 0} (e_left : Executor S (List ℕ)) (e_right : Executor T (List ℕ))
    (left_len right_len : ℕ) (join_type : JoinType) (check : List ℕ → List ℕ → Bool) (fuel : ℕ)
    (rights : List (List ℕ)) (at_left : List (List ℕ) → S → Type 0)
    (at_right : List (List ℕ) → T → Type 0) (lefts : List (List ℕ))
    (left_scan : Scan e_left lefts at_left) (right_scan : Scan e_right rights at_right) where
  abbrev later_rows : List (List ℕ) → List (List ℕ)
  later_rows = join_rows right_len join_type check rights

  abbrev own_rows : Bool → List ℕ → List (List ℕ) → List (List ℕ)
  own_rows = rows_from right_len join_type check

  abbrev rounds : List (List ℕ) → List (List ℕ) → ℕ
  rounds =
      Search.rounds e_left e_right left_len right_len join_type check fuel rights at_left at_right
        lefts left_scan right_scan

  abbrev Pending : Bool → List ℕ → List (List ℕ) → List (List ℕ) → Join S T → Type 0
  Pending =
      Search.Pending e_left e_right left_len right_len join_type check fuel rights at_left at_right
        lefts left_scan right_scan

  abbrev Found : List (List ℕ) → Bool × Join S T → Type 0
  Found =
      Search.Found e_left e_right left_len right_len join_type check fuel rights at_left at_right
        lefts left_scan right_scan

  abbrev try : Join S T → Bool × Join S T
  try = try_right e_left e_right left_len right_len join_type check fuel

  abbrev pub Answers : List (List ℕ) → Option (Bool × Join S T) → Join S T → Type 0
  Answers rows answer j =
      (o : Bool × Join S T) × (answer ≡ some o) × Found rows o × (o.1.is_end ≡ j.is_end)

  -- What `again` has to answer, after a left row whose first right row does not match.
  abbrev pub AnswersAfter : List (List ℕ) → (Join S T → Option (Bool × Join S T)) → Type 0
  AnswersAfter ls again =
      (a : List ℕ) (bs ls' : List (List ℕ)) (j : Join S T)
      → ls ≡ a ∷ ls'
      → Pending false a bs ls' j
      → length bs ≤ length rights
      → Answers (own_rows false a bs ++ later_rows ls') (again j) j

  abbrev begun : Join S T → Option (Bool × Join S T)
  begun = begin_right e_left e_right left_len right_len join_type check fuel

  abbrev pub with_right :
      (Join S T → Option (Bool × Join S T)) → Join S T → Option (Bool × Join S T)
  with_right again j = do (found, j') ← begun j; if found then some (true, j') else again j'

  -- The search from a left row that has just been taken.
  pub with_right-lem :
      (again : Join S T → Option (Bool × Join S T)) (a : List ℕ) (ls : List (List ℕ)) (j : Join S T)
      → at_left (a ∷ ls) j.left
      → j.left_record ≡ some a
      → j.left_has_match ≡ false
      → j.null_pad_output ≡ false
      → j.left_exhausted ≡ false
      → rounds rights ls < fuel
      → AnswersAfter (a ∷ ls) again
      → Answers (later_rows (a ∷ ls)) (with_right again j) j
  with_right-lem again a ls j left_at left_is matched unpadded on_left few k =
      let r =
        Search.begin_right-lem e_left e_right left_len right_len join_type check fuel rights at_left
          at_right lefts left_scan right_scan a ls j left_at left_is matched unpadded on_left few in
      let own =
        ap (λ rows. rows ++ later_rows ls) (rows_from-false right_len join_type check a rights) in
      elim (Bool-cases (r.0).0) [
        | inl y ↦
            let found : Found (own_rows false a rights ++ later_rows ls) (true, (r.0).1) =
              rw y at r.2 in
            (
              (true, (r.0).1),
              rw (r.1, ◌>>=◌) (rw y refl),
              subst (λ rows. Found rows (true, (r.0).1)) own found,
              r.3,
            )
        | inr n ↦
            let (bs, p, same, short) = (rw n at r.2) in
            let next = k a bs ls (r.0).1 refl p short in
            (
              next.0,
              rw (r.1, ◌>>=◌) (rw n next.1),
              subst (λ rows. Found rows next.0)
                  (ap (λ rows. rows ++ later_rows ls) (sym same) ∙ own) next.2,
              next.3 ∙ r.3,
            )
      ]

  abbrev pub advance : (Join S T → Option (Bool × Join S T)) → Join S T → Option (Bool × Join S T)
  advance again j = do
    left ← e_left.next_tuple j.left
    if e_left.is_end left
        then some (false, record j { left = left })
        else with_right again
            (take_left e_left e_right left_len right_len join_type check fuel j left)

  pub advance-lem :
      (again : Join S T → Option (Bool × Join S T)) (a : List ℕ) (ls : List (List ℕ)) (j : Join S T)
      → at_left (a ∷ ls) j.left
      → j.left_exhausted ≡ false
      → rounds [] ls < fuel
      → AnswersAfter ls again
      → Answers (later_rows ls) (advance again j) j
  advance-lem again a [] j left_at on_left few k =
      let g = left_scan.goes (a ∷ []) j.left left_at in
      (
        (false, record j { left = g.0 }),
        rw (g.1, ◌>>=◌) (rw (left_scan.ends g.0 g.2) refl),
        (refl, on_left),
        refl,
      )
  advance-lem again a (a' ∷ ls) j left_at on_left few k =
      let g = left_scan.goes (a ∷ (a' ∷ ls)) j.left left_at in
      let s = left_scan.shows a' ls g.0 g.2 in
      let j' = take_left e_left e_right left_len right_len join_type check fuel j g.0 in
      let w = with_right-lem again a' ls j' g.2 s.1 refl refl on_left (omega (arith, few)) k in
      (w.0, rw (g.1, ◌>>=◌) (rw (s.0) w.1), w.2, w.3)

  exhausted_advances :
      (again : Join S T → Option (Bool × Join S T)) (j : Join S T)
      → (not j.left_has_match && keeps_left join_type) ≡ false
      → right_exhausted e_left e_right left_len right_len join_type check fuel again j
        ≡ advance again j
  unfolding right_exhausted
  exhausted_advances again j c = rw c refl

  right_exhausted-lem :
      (again : Join S T → Option (Bool × Join S T)) (h : Bool) (a : List ℕ) (ls : List (List ℕ))
      (j : Join S T)
      → at_left (a ∷ ls) j.left
      → j.left_record ≡ some a
      → j.left_has_match ≡ h
      → j.left_exhausted ≡ false
      → rounds [] ls < fuel
      → AnswersAfter ls again
      → Answers
          (own_rows h a [] ++ later_rows ls)
          (right_exhausted e_left e_right left_len right_len join_type check fuel again j)
          j
  unfolding right_exhausted shown_row
  right_exhausted-lem again true a ls j left_at left_is matched on_left few k =
      let r = advance-lem again a ls j left_at on_left few k in
      (r.0, exhausted_advances again j (rw matched refl) ∙ r.1, r.2, r.3)
  right_exhausted-lem again false a ls j left_at left_is matched on_left few k =
      elim (Bool-cases (keeps_left join_type)) [
        | inl y ↦
            rw (matched, y)
              (
                (true, record j { null_pad_output = true; left_has_match = true }),
                refl,
                (
                  refl,
                  rw (on_left, left_is) refl,
                  inr (record {
                    a = a;
                    ls = ls;
                    left_at = left_at;
                    pads = refl;
                    on_left = on_left;
                    to_come = refl;
                    few = few;
                  }),
                ),
                refl,
              )
        | inr n ↦
            let r = advance-lem again a ls j left_at on_left few k in
            (r.0, exhausted_advances again j (rw (matched, n) refl) ∙ r.1, rw n r.2, r.3)
      ]

  pub fewer :
      (left : ℕ) (bs : List (List ℕ)) (a : List ℕ) (ls ls' : List (List ℕ))
      → rounds [] ls < suc left
      → ls ≡ a ∷ ls'
      → length bs ≤ length rights
      → rounds bs ls' < left
  fewer left bs a ls ls' few e short =
      let few' : rounds [] (a ∷ ls') < suc left = subst (λ l. rounds [] l < suc left) e few in
      omega (arith, few')

  pub find_next_match-lem :
      (left : ℕ) (h : Bool) (a : List ℕ) (bs ls : List (List ℕ)) (j : Join S T)
      → Pending h a bs ls j
      → rounds bs ls < left
      → left ≤ fuel
      → Answers
          (own_rows h a bs ++ later_rows ls)
          (find_next_match e_left e_right left_len right_len join_type check fuel left j)
          j
  unfolding find_next_match
  find_next_match-lem zero h a bs ls j p few most = absurd (omega arith)
  find_next_match-lem (suc left) h a [] ls j p few most =
      let r = p.right_next in
      let x =
        right_exhausted-lem
          (find_next_match e_left e_right left_len right_len join_type check fuel left) h a ls
          (record j { right = r.0 }) p.left_at p.left_is p.matched p.on_left (omega arith)
          (λ a' bs' ls' j' e p' short.
            find_next_match-lem left false a' bs' ls' j' p' (fewer left bs' a' ls ls' few e short)
              (omega arith)) in
      (x.0, rw (r.1, ◌>>=◌) (rw (right_scan.ends r.0 r.2) x.1), x.2, x.3)
  find_next_match-lem (suc left) h a (b ∷ bs) ls j p few most =
      let r = p.right_next in
      let j1 : Join S T = record j { right = r.0 } in
      let open_right = (right_scan.shows b bs r.0 r.2).0 in
      let t =
        Search.try-lem e_left e_right left_len right_len join_type check fuel rights at_left
          at_right lefts left_scan right_scan h a b bs ls j1 p.left_at p.left_is r.2 p.matched
          p.unpadded p.on_left in
      elim (Bool-cases (check a b)) [
        | inl y ↦
            let q : Pending true a bs ls (try j1).1 = rw y at t.1 in
            let j2 : Join S T = record (try j1).1 { null_pad_output = false } in
            let q' : Pending true a bs ls j2 = record {
              left_at = q.left_at;
              left_is = q.left_is;
              right_next = q.right_next;
              matched = q.matched;
              unpadded = refl;
              on_left = q.on_left;
            } in
            (
              (true, j2),
              rw (r.1, ◌>>=◌) (rw (open_right, t.0, y) refl),
              rw y (
                  Search.match-Found e_left e_right left_len right_len join_type check fuel rights
                    at_left at_right lefts left_scan right_scan a b bs ls _ j2 q' t.2
                    (omega (arith, few)) refl),
              t.3,
            )
        | inr n ↦
            let q : Pending h a bs ls (try j1).1 = rw n at t.1 in
            let x =
              find_next_match-lem left h a bs ls (try j1).1 q (omega (arith, few)) (omega arith) in
            (x.0, rw (r.1, ◌>>=◌) (rw (open_right, t.0, n) x.1), rw n x.2, x.3 ∙ t.3)
      ]
