-- ===== src/Execution/Distinct/Rows.antt =====
-- The rows that a distinct executor gives.
use aidv.Prelude.{
  ℕ, zero, suc, ◌<◌, ◌≤◌, ◌≡◌, refl, true, false, Option, some, List, [], ◌∷◌, if◌then◌else◌,
  length, arith, inl, inr, ◌⊎◌, Bool-cases, sym, ap, ◌∙◌, subst, same_bytes, same_bytes_eq,
}
use aidv.Execution.{Executor, Scan, Yields, ◌>>=◌}
use aidv.Execution.Distinct.{
  DistinctExecutor, was_seen, show, begin_tuple, find_new, next, distinct,
}

-- The rows without those that are in the list.
abbrev pub unseen_rows : List (List ℕ) → List (List ℕ) → List (List ℕ)
unseen_rows seen [] = []
unseen_rows seen (r ∷ rs) =
    let rest = unseen_rows seen rs in if was_seen r seen then rest else r ∷ rest

-- Each row once, where it stands first.
abbrev pub unique : List (List ℕ) → List (List ℕ)
unique [] = []
unique (r ∷ rs) = r ∷ unseen_rows (r ∷ []) (unique rs)

-- The rows that are shown, one by one.
abbrev shown_from : List (List ℕ) → List (List ℕ) → List (List ℕ)
shown_from seen [] = []
shown_from seen (r ∷ rs) =
    if was_seen r seen then shown_from seen rs else r ∷ shown_from (r ∷ seen) rs

unseen_rows-seen :
    (r : List ℕ) (seen rs : List (List ℕ))
    → was_seen r seen ≡ true
    → unseen_rows seen (unseen_rows (r ∷ []) rs) ≡ unseen_rows seen rs
unseen_rows-seen r seen [] h = refl
unseen_rows-seen r seen (x ∷ rs) h = elim (Bool-cases (same_bytes r x)) [
  | inl y ↦
      let same : r ≡ x = same_bytes_eq r x y in
      let known : was_seen x seen ≡ true = ap (λ row. was_seen row seen) (sym same) ∙ h in
      rw (y, known) (unseen_rows-seen r seen rs h)
  | inr n ↦ rw n (ground (arith, unseen_rows-seen r seen rs h))
]

unseen_rows-more :
    (r : List ℕ) (seen rs : List (List ℕ))
    → unseen_rows seen (unseen_rows (r ∷ []) rs) ≡ unseen_rows (r ∷ seen) rs
unseen_rows-more r seen [] = refl
unseen_rows-more r seen (x ∷ rs) = elim (Bool-cases (same_bytes r x)) [
  | inl y ↦ rw y (unseen_rows-more r seen rs)
  | inr n ↦ rw n (ground (arith, unseen_rows-more r seen rs))
]

shown_from-unique : (seen rs : List (List ℕ)) → shown_from seen rs ≡ unseen_rows seen (unique rs)
shown_from-unique seen [] = refl
shown_from-unique seen (r ∷ rs) = elim (Bool-cases (was_seen r seen)) [
  | inl y ↦ rw y (shown_from-unique seen rs ∙ sym (unseen_rows-seen r seen (unique rs) y))
  | inr n ↦ rw n (
      ap (λ rows. r ∷ rows)
        (shown_from-unique (r ∷ seen) rs ∙ sym (unseen_rows-more r seen (unique rs))))
]

unseen_rows-none : (rs : List (List ℕ)) → unseen_rows [] rs ≡ rs
unseen_rows-none [] = refl
unseen_rows-none (r ∷ rs) = ap (λ rows. r ∷ rows) (unseen_rows-none rs)

module _ {S : Type 0} (e : Executor S (List ℕ)) (fuel : ℕ) (rows : List (List ℕ))
    (At : List (List ℕ) → S → Type 0) (scan : Scan e rows At) (enough : length rows < fuel) where
  -- The executor shows `r`, and its child has `rs` left behind it.
  record Showing (r : List ℕ) (seen rs : List (List ℕ)) (d : DistinctExecutor S) : Type 0 where
    is_open : d.is_end ≡ false
    shows : d.current ≡ some r
    child_at : At (r ∷ rs) d.child
    known : d.seen ≡ seen

  -- The next of the rows that are to come, if there is one.
  record Fresh (seen rs : List (List ℕ)) (d : DistinctExecutor S) : Type 0 where
    r : List ℕ
    later : List (List ℕ)
    first : shown_from seen rs ≡ r ∷ shown_from (r ∷ seen) later
    fewer : suc (length later) ≤ length rs
    showing : Showing r (r ∷ seen) later d

  abbrev GoesTo : List (List ℕ) → List (List ℕ) → Option (DistinctExecutor S) → Type 0
  GoesTo seen rs answer =
      (d : DistinctExecutor S) × (answer ≡ some d)
      × ((shown_from seen rs ≡ []) × (d.is_end ≡ true) ⊎ Fresh seen rs d)

  skip_known :
      (r : List ℕ) (seen rs : List (List ℕ)) (answer : Option (DistinctExecutor S))
      → was_seen r seen ≡ true
      → GoesTo seen rs answer
      → GoesTo seen (r ∷ rs) answer
  skip_known r seen rs answer k (d, found, inl (nothing, ended)) =
      (d, found, inl (rw k nothing, ended))
  skip_known r seen rs answer k (d, found, inr f) = (
    d,
    found,
    inr (record {
      r = f.r;
      later = f.later;
      first = rw k f.first;
      fewer = omega (arith, f.fewer);
      showing = f.showing;
    }),
  )

  find_new-lem :
      (left : ℕ) (r : List ℕ) (seen rs : List (List ℕ)) (d : DistinctExecutor S)
      → At (r ∷ rs) d.child
      → d.is_end ≡ false
      → d.seen ≡ seen
      → length rs < left
      → GoesTo seen rs (find_new e fuel left d)
  unfolding find_new
  find_new-lem zero r seen rs d at is_open known few = absurd (omega arith)
  find_new-lem (suc left) r seen [] d at is_open known few =
      let g = scan.goes (r ∷ []) d.child at in
      (
        record d { child = g.0; is_end = true },
        rw ((scan.shows r [] d.child at).0) (rw (g.1, ◌>>=◌) (rw (scan.ends g.0 g.2) refl)),
        inl (refl, refl),
      )
  find_new-lem (suc left) r seen (r' ∷ rs) d at is_open known few =
      let g = scan.goes (r ∷ (r' ∷ rs)) d.child at in
      let s = scan.shows r' rs g.0 g.2 in
      let d' : DistinctExecutor S = record d { child = g.0 } in
      elim (Bool-cases (was_seen r' seen)) [
        | inl y ↦
            let again = find_new-lem left r' seen rs d' g.2 is_open known (omega (arith, few)) in
            let k : was_seen r' d.seen ≡ true = ap (was_seen r') known ∙ y in
            skip_known r' seen rs _ y (
              again.0,
              rw ((scan.shows r (r' ∷ rs) d.child at).0)
                  (rw (g.1, ◌>>=◌) (rw (s.0) (rw (s.1, ◌>>=◌) (rw k again.1)))),
              again.2,
            )
        | inr n ↦
            let k : was_seen r' d.seen ≡ false = ap (was_seen r') known ∙ n in
            (
              show e fuel d g.0 r',
              rw ((scan.shows r (r' ∷ rs) d.child at).0)
                  (rw (g.1, ◌>>=◌) (rw (s.0) (rw (s.1, ◌>>=◌) (rw k refl)))),
              inr (record {
                r = r';
                later = rs;
                first = rw n refl;
                fewer = omega arith;
                showing = record {
                  is_open = is_open;
                  shows = refl;
                  child_at = g.2;
                  known = ap (λ l. r' ∷ l) known;
                };
              }),
            )
      ]

  Showing-Yields :
      (n : ℕ) (r : List ℕ) (seen rs : List (List ℕ)) (d : DistinctExecutor S)
      → length rs ≤ n
      → length rs < fuel
      → Showing r seen rs d
      → Yields (distinct e fuel) (r ∷ shown_from seen rs) d
  unfolding next
  Showing-Yields zero r seen rs d most few s =
      let x = find_new-lem fuel r seen rs d s.child_at s.is_open s.known few in
      (
        s.is_open,
        rw (s.is_open) s.shows,
        (
          x.0,
          x.1,
          elim x.2 [
            | inl (nothing, ended) ↦ rw nothing ended
            | inr f ↦ absurd (omega (arith, f.fewer))
          ],
        ),
      )
  Showing-Yields (suc n) r seen rs d most few s =
      let x = find_new-lem fuel r seen rs d s.child_at s.is_open s.known few in
      (
        s.is_open,
        rw (s.is_open) s.shows,
        (
          x.0,
          x.1,
          elim x.2 [
            | inl (nothing, ended) ↦ rw nothing ended
            | inr f ↦ rw (f.first) (
                Showing-Yields n f.r (f.r ∷ seen) f.later x.0 (omega (arith, f.fewer))
                  (omega (arith, f.fewer)) f.showing)
          ],
        ),
      )

  begun :
      (rs : List (List ℕ)) (child : S) (d : DistinctExecutor S)
      → At rs child
      → length rs < fuel
      → (d' : DistinctExecutor S) × ((if e.is_end child
            then some (record d { child = child; seen = []; is_end = e.is_end child })
            else (do
              row ← e.next child
              some (
                  show e fuel
                    (record d { child = child; seen = []; is_end = e.is_end child })
                    child
                    row)))
          ≡ some d')
        × Yields (distinct e fuel) (shown_from [] rs) d'
  begun [] child d at few = (
    record d { child = child; seen = []; is_end = e.is_end child },
    rw (scan.ends child at) refl,
    scan.ends child at,
  )
  begun (r ∷ rs) child d at few =
      let s = scan.shows r rs child at in
      let d' : DistinctExecutor S =
        show e fuel (record d { child = child; seen = []; is_end = e.is_end child }) child r in
      (
        d',
        rw (s.0) (rw (s.1, ◌>>=◌) refl),
        Showing-Yields (length rs) r (r ∷ []) rs d' (omega arith) (omega (arith, few))
            (record { is_open = s.0; shows = refl; child_at = at; known = refl }),
      )

  begin_tuple-lem :
      (d : DistinctExecutor S)
      → (d' : DistinctExecutor S) × (begin_tuple e fuel d ≡ some d')
        × Yields (distinct e fuel) (shown_from [] rows) d'
  unfolding begin_tuple
  begin_tuple-lem d =
      let b = scan.begins d.child in
      let r = begun rows b.0 d b.2 enough in (r.0, rw (b.1, ◌>>=◌) r.1, r.2)

-- Over a scan of rows, a distinct executor shows each row once, in the order in which they first stand
-- in the scan, and ends. The number of rows and one is fuel enough.
pub distinct-Yields :
    {S : Type 0} (e : Executor S (List ℕ)) (fuel : ℕ) (rows : List (List ℕ))
    (At : List (List ℕ) → S → Type 0) (d : DistinctExecutor S)
    → Scan e rows At
    → length rows < fuel
    → (d' : DistinctExecutor S) × (begin_tuple e fuel d ≡ some d')
      × Yields (distinct e fuel) (unique rows) d'
distinct-Yields e fuel rows At d scan enough =
    let r = begin_tuple-lem e fuel rows At scan enough d in
    let same = shown_from-unique [] rows ∙ unseen_rows-none (unique rows) in
    (r.0, r.1, subst (λ l. Yields (distinct e fuel) l r.0) same r.2)
