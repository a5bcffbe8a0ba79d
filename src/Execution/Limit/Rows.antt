-- ===== src/Execution/Limit/Rows.antt =====
-- The rows that a limit gives.
use aidv.Prelude.{
  ℕ, zero, suc, ◌-◌, ◌≤◌, ◌≡◌, refl, true, false, ◌||◌, some, List, [], ◌∷◌, leb, ◌==◌,
  if◌then◌else◌, length, take, drop, arith, inl, inr, Bool-cases, sym, ap, ◌∙◌, subst,
}
use aidv.Execution.{Executor, Scan, Yields, ◌>>=◌}
use aidv.Execution.Limit.{LimitExecutor, skip, begin_tuple, next_tuple, next, limited}

take_nil : {A : Type 0} (n : ℕ) → take {A = A} n [] ≡ []
take_nil zero = refl
take_nil (suc n) = refl

module _ {S A : Type 0} (e : Executor S A) (rows : List A) (At : List A → S → Type 0)
    (scan : Scan e rows At) where
  skip-lem :
      (offset : ℕ) (rs : List A) (s : S)
      → At rs s
      → (s' : S) × (skip e offset s ≡ some (offset - length rs, s')) × At (drop offset rs) s'
  unfolding skip
  skip-lem zero rs s at = (s, ap (λ (n : ℕ). some (n, s)) (omega arith), at)
  skip-lem (suc offset) [] s at =
      (s, rw (scan.ends s at) (ap (λ (n : ℕ). some (n, s)) (omega arith)), at)
  skip-lem (suc offset) (r ∷ rs) s at =
      let g = scan.goes (r ∷ rs) s at in
      let ih = skip-lem offset rs g.0 g.2 in
      (
        ih.0,
        rw ((scan.shows r rs s at).0, g.1) (ih.1 ∙ ap (λ (n : ℕ). some (n, ih.0)) (omega arith)),
        ih.2,
      )

  -- After the last row that the limit allows.
  abbrev GoesOn : List A → LimitExecutor S A → Type 0
  GoesOn rs l = (l' : LimitExecutor S A) × (next_tuple e l ≡ some l') × Yields (limited e) rs l'

  at_limit :
      (rs : List A) (l : LimitExecutor S A)
      → leb l.limit l.count ≡ true
      → GoesOn (take (l.limit - l.count) rs) l
  unfolding next_tuple
  at_limit rs l y =
      let none_left : l.limit - l.count ≡ 0 = ground (arith, y) in
      (record l { is_end = true }, rw y refl, rw none_left refl)

  at_last :
      (n : ℕ) (r : A) (l : LimitExecutor S A)
      → leb l.limit l.count ≡ false
      → At (r ∷ []) l.child
      → GoesOn (take (suc n) []) l
  unfolding next_tuple
  at_last n r l below at =
      let g = scan.goes (r ∷ []) l.child at in
      (record l { child = g.0; is_end = true }, rw (below, g.1, scan.ends g.0 g.2) refl, refl)

  more_rows :
      (n : ℕ) (r r' : A) (rs : List A) (l : LimitExecutor S A)
      → leb l.limit l.count ≡ false
      → At (r ∷ (r' ∷ rs)) l.child
      → ((child : S)
          → At (r' ∷ rs) child
          → Yields
              (limited e)
              (r' ∷ take n rs)
              (record l { child = child; current = e.next child; count = suc l.count }))
      → GoesOn (take (suc n) (r' ∷ rs)) l
  unfolding next_tuple
  more_rows n r r' rs l below at rest =
      let g = scan.goes (r ∷ (r' ∷ rs)) l.child at in
      (
        record l { child = g.0; current = e.next g.0; count = suc l.count },
        rw (below, g.1, (scan.shows r' rs g.0 g.2).0) refl,
        rest g.0 g.2,
      )

  -- A limit that shows a row, with the rows that its child has left.
  yields_shown :
      (rs : List A) (r : A) (l : LimitExecutor S A)
      → l.is_end ≡ false
      → l.current ≡ some r
      → At (r ∷ rs) l.child
      → Yields (limited e) (r ∷ take (l.limit - l.count) rs) l
  unfolding next
  yields_shown [] r l going shown at = (
    going,
    rw going shown,
    elim (Bool-cases (leb l.limit l.count)) [
      | inl y ↦ at_limit [] l y
      | inr n ↦
          let some_left : l.limit - l.count ≡ suc (l.limit - suc l.count) = ground (arith, n) in
          rw some_left (at_last (l.limit - suc l.count) r l n at)
    ],
  )
  yields_shown (r' ∷ rs) r l going shown at = (
    going,
    rw going shown,
    elim (Bool-cases (leb l.limit l.count)) [
      | inl y ↦ at_limit (r' ∷ rs) l y
      | inr n ↦
          let some_left : l.limit - l.count ≡ suc (l.limit - suc l.count) = ground (arith, n) in
          rw some_left (
            more_rows (l.limit - suc l.count) r r' rs l n at (λ child at'.
              yields_shown rs r'
                (record l { child = child; current = e.next child; count = suc l.count }) going
                (scan.shows r' rs child at').1 at'))
    ],
  )

  -- After `begin_tuple`, of a child whose rows are left after the offset.
  begun :
      (rs : List A) (l : LimitExecutor S A) (child : S) (offset : ℕ)
      → At rs child
      → (l' : LimitExecutor S A) × ((if e.is_end child || l.limit == 0
            then some (record l { child = child; offset = offset; count = 0; is_end = true })
            else some (record l {
              child = child;
              offset = offset;
              current = e.next child;
              count = 1;
              is_end = false;
            }))
          ≡ some l')
        × Yields (limited e) (take l.limit rs) l'
        × (l'.offset ≡ offset)
        × (l'.limit ≡ l.limit)
  begun [] l child offset at = (
    record l { child = child; offset = offset; count = 0; is_end = true },
    rw (scan.ends child at) refl,
    rw (take_nil l.limit) refl,
    refl,
    refl,
  )
  begun (r ∷ rs) l child offset at =
      let shown = scan.shows r rs child at in
      elim (Bool-cases (l.limit == 0)) [
        | inl y ↦
            let nothing : l.limit ≡ 0 = ground (arith, y) in
            (
              record l { child = child; offset = offset; count = 0; is_end = true },
              rw (shown.0, y) refl,
              rw nothing refl,
              refl,
              refl,
            )
        | inr n ↦
            let l' : LimitExecutor S A = record l {
              child = child;
              offset = offset;
              current = e.next child;
              count = 1;
              is_end = false;
            } in
            let some_rows : l.limit ≡ suc (l.limit - 1) = ground (arith, n) in
            (
              l',
              rw (shown.0, n) refl,
              subst (λ (m : ℕ). Yields (limited e) (take m (r ∷ rs)) l') (sym some_rows)
                  (yields_shown rs r l' refl shown.1 at),
              refl,
              refl,
            )
      ]

  begin_tuple-lem :
      (l : LimitExecutor S A)
      → (l' : LimitExecutor S A) × (begin_tuple e l ≡ some l')
        × Yields (limited e) (take l.limit (drop l.offset rows)) l'
        × (l'.offset ≡ l.offset - length rows)
        × (l'.limit ≡ l.limit)
  unfolding begin_tuple
  begin_tuple-lem l =
      let b = scan.begins l.child in
      let k = skip-lem l.offset rows b.0 b.2 in
      let r = begun (drop l.offset rows) l k.0 (l.offset - length rows) k.2 in
      (r.0, rw (b.1, k.1) r.1, r.2, r.3, r.4)

-- Over any scan of rows, a limit shows the rows after the offset, as many as the limit.
pub limited-Yields :
    {S A : Type 0} (e : Executor S A) (rows : List A) (At : List A → S → Type 0)
    (l : LimitExecutor S A)
    → Scan e rows At
    → (l' : LimitExecutor S A) × (begin_tuple e l ≡ some l')
      × Yields (limited e) (take l.limit (drop l.offset rows)) l'
limited-Yields e rows At l scan = let r = begin_tuple-lem e rows At scan l in (r.0, r.1, r.2)

-- A second `begin_tuple` skips no rows, where there were as many rows as the offset.
pub limited_again :
    {S A : Type 0} (e : Executor S A) (rows : List A) (At : List A → S → Type 0)
    (l : LimitExecutor S A)
    → Scan e rows At
    → l.offset ≤ length rows
    → (l' : LimitExecutor S A) × ((begin_tuple e l >>= begin_tuple e) ≡ some l')
      × Yields (limited e) (take l.limit rows) l'
limited_again e rows At l scan h =
    let first = begin_tuple-lem e rows At scan l in
    let again = begin_tuple-lem e rows At scan first.0 in
    let no_offset : (first.0).offset ≡ 0 = omega (arith, first.3) in
    (
      again.0,
      rw (first.1, ◌>>=◌) again.1,
      subst (λ (m : ℕ). Yields (limited e) (take m rows) again.0) first.4
          (subst (λ (k : ℕ). Yields (limited e) (take (first.0).limit (drop k rows)) again.0)
            no_offset again.2),
    )
