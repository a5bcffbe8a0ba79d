-- ===== src/Execution/NestedLoopJoin/Unmatched.antt =====
-- The full join of no left rows.
use aidv.Prelude.{
  ℕ, suc, ◌≡◌, refl, Bool, true, false, not, Option, some, List, [], ◌∷◌, ◌++◌, if◌then◌else◌, map,
  ◌∙◌,
}
use aidv.Execution.{Executor, Scan, Yields, tail, ◌>>=◌}
use aidv.Execution.NestedLoopJoin.{
  full_join, zeros, Join, find_unmatched_right, start_unmatched_right_phase, finish, begin_tuple,
  next_tuple, next, shown_row, nested_loop_join,
}

first_branch : {A : Type 0} (a : Bool) (x y : A) → a ≡ true → (if a then x else y) ≡ x
first_branch a x y e = rw e refl

module _ {S T : Type 0} (e_left : Executor S (List ℕ)) (e_right : Executor T (List ℕ))
    (left_len right_len : ℕ) (check : List ℕ → List ℕ → Bool) (fuel : ℕ)
    (at_right : List (List ℕ) → T → Type 0) (rights : List (List ℕ))
    (right_scan : Scan e_right rights at_right) where
  -- The second phase, where no right row has been matched and these rows are left of the right scan.
  record Unmatched (rs : List (List ℕ)) (j : Join S T) : Type 0 where
    exhausted : j.left_exhausted ≡ true
    right_at : at_right rs j.right
    unmatched : (pos : ℕ) → j.right_matched pos ≡ false

  abbrev join : Executor (Join S T) (List ℕ)
  join = nested_loop_join e_left e_right left_len right_len full_join check (suc fuel)

  abbrev padded_rows : List (List ℕ) → List (List ℕ)
  padded_rows = map (λ b. zeros left_len ++ b)

  abbrev search : Join S T → Option (Bool × Join S T)
  search =
      find_unmatched_right e_left e_right left_len right_len full_join check (suc fuel) (suc fuel)

  abbrev Shows : List (List ℕ) → Bool × Join S T → Type 0
  Shows [] (found, j) = found ≡ false
  Shows (b ∷ bs) (found, j) = (found ≡ true) × (j.right_record ≡ some b) × Unmatched (b ∷ bs) j

  search_to :
      (bs : List (List ℕ)) (rs : List (List ℕ)) (j : Join S T)
      → (r : T) × (e_right.next_tuple j.right ≡ some r) × at_right bs r
      → Unmatched rs j
      → (o : Bool × Join S T) × (search j ≡ some o) × Shows bs o × (o.1.is_end ≡ j.is_end)
  unfolding find_unmatched_right
  search_to [] rs j (r, e, at) u =
      ((false, record j { right = r }), rw (e, ◌>>=◌) (rw (right_scan.ends r at) refl), refl, refl)
  search_to (b ∷ bs) rs j (r, e, at) u =
      let s = right_scan.shows b bs r at in
      let j' : Join S T = record j {
        right = r;
        right_record = e_right.next r;
        right_scan_pos = suc j.right_scan_pos;
      } in
      (
        (true, j'),
        rw (e, ◌>>=◌) (rw (s.0, u.unmatched (suc j.right_scan_pos)) refl),
        (refl, s.1, record { exhausted = u.exhausted; right_at = at; unmatched = u.unmatched }),
        refl,
      )

  search-lem :
      (rs : List (List ℕ)) (j : Join S T)
      → Unmatched rs j
      → (o : Bool × Join S T) × (search j ≡ some o) × Shows (tail rs) o × (o.1.is_end ≡ j.is_end)
  search-lem rs j u = search_to (tail rs) rs j (right_scan.goes rs j.right u.right_at) u

  -- A join in its second phase that shows the first of the rows, or is at its end.
  abbrev Ready : List (List ℕ) → Join S T → Type 0
  Ready [] j = j.is_end ≡ true
  Ready (b ∷ bs) j = (j.is_end ≡ false) × (j.right_record ≡ some b) × Unmatched (b ∷ bs) j

  next_tuple-Ready :
      (bs : List (List ℕ)) (j : Join S T) (o : Bool × Join S T)
      → j.left_exhausted ≡ true
      → j.is_end ≡ false
      → search j ≡ some o
      → Shows bs o
      → o.1.is_end ≡ j.is_end
      → (j' : Join S T) × (next_tuple e_left e_right left_len right_len full_join check (suc fuel) j
          ≡ some j')
        × Ready bs j'
  unfolding next_tuple
  next_tuple-Ready [] j (found, j1) exhausted is_open e shows same = (
    record j1 { is_end = true },
    first_branch j.left_exhausted _ _ exhausted ∙ (rw (e, ◌>>=◌) (rw shows refl)),
    refl,
  )
  next_tuple-Ready (b ∷ bs) j (found, j1) exhausted is_open e (shows, read, u) same = (
    j1,
    first_branch j.left_exhausted _ _ exhausted ∙ (rw (e, ◌>>=◌) (rw shows refl)),
    (same ∙ is_open, read, u),
  )

  Ready-Yields : (bs : List (List ℕ)) (j : Join S T) → Ready bs j → Yields join (padded_rows bs) j
  unfolding next shown_row
  Ready-Yields [] j r = r
  Ready-Yields (b ∷ bs) j (is_open, read, u) =
      let x = search-lem (b ∷ bs) j u in
      let n = next_tuple-Ready bs j x.0 u.exhausted is_open x.1 x.2 x.3 in
      (is_open, rw (is_open, u.exhausted, read) refl, (n.0, n.1, Ready-Yields bs n.0 n.2))

  opened_lem :
      (bs : List (List ℕ)) (o : Bool × Join S T)
      → Shows bs o
      → (j' : Join S T) × (some (record o.1 { is_end = not o.0 }) ≡ some j') × Ready bs j'
  opened_lem [] (found, j) e = (record j { is_end = not found }, refl, rw e refl)
  opened_lem (b ∷ bs) (found, j) (e, read, u) = (
    record j { is_end = not found },
    refl,
    (
      rw e refl,
      read,
      record { exhausted = u.exhausted; right_at = u.right_at; unmatched = u.unmatched },
    ),
  )

  start-lem :
      (j : Join S T)
      → ((pos : ℕ) → j.right_matched pos ≡ false)
      → (j' : Join S T) × (start_unmatched_right_phase e_left e_right left_len right_len full_join
            check
            (suc fuel)
            j
          ≡ some j')
        × Ready (tail rights) j'
  unfolding start_unmatched_right_phase
  start-lem j unmatched =
      let b = right_scan.begins j.right in
      let j1 : Join S T = record j { left_exhausted = true; right = b.0; right_scan_pos = 0 } in
      let x =
        search-lem rights j1 (record { exhausted = refl; right_at = b.2; unmatched = unmatched }) in
      let r = opened_lem (tail rights) x.0 x.2 in (r.0, rw (b.1, ◌>>=◌) (rw (x.1, ◌>>=◌) r.1), r.2)

-- A full join of no left rows and of right rows shows the right rows with zeros on the left, but not the
-- first of them: the second phase goes on to the next row before it looks at one.
pub full_join-Yields :
    {S T : Type 0} (e_left : Executor S (List ℕ)) (e_right : Executor T (List ℕ))
    (left_len right_len : ℕ) (check : List ℕ → List ℕ → Bool) (fuel : ℕ) (b : List ℕ)
    (rights : List (List ℕ)) (at_left : List (List ℕ) → S → Type 0)
    (at_right : List (List ℕ) → T → Type 0) (j : Join S T)
    → Scan e_left [] at_left
    → Scan e_right (b ∷ rights) at_right
    → (j' : Join S T) × (begin_tuple e_left e_right left_len right_len full_join check (suc fuel) j
        ≡ some j')
      × Yields
          (nested_loop_join e_left e_right left_len right_len full_join check (suc fuel))
          (map (λ row. zeros left_len ++ row) rights)
          j'
unfolding begin_tuple finish
full_join-Yields {S} {T} e_left e_right left_len right_len check fuel b rights at_left at_right j
      left_scan right_scan =
    let l = left_scan.begins j.left in
    let j1 : Join S T = record j {
      left_exhausted = false;
      right_scan_pos = 0;
      right_matched = λ _. false;
      left = l.0;
    } in
    let r =
      start-lem e_left e_right left_len right_len check fuel at_right (b ∷ rights) right_scan j1
        (λ pos. refl) in
    (
      r.0,
      rw (l.1, ◌>>=◌) (rw (left_scan.ends l.0 l.2) r.1),
      Ready-Yields e_left e_right left_len right_len check fuel at_right (b ∷ rights) right_scan
          rights r.0 r.2,
    )
