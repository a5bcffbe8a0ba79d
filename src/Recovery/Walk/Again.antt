-- ===== src/Recovery/Walk/Again.antt =====
-- A walk whose steps do nothing once they have been done, as those of `redo`.
use aidv.Prelude.{
  ℕ, zero, suc, ◌+◌, ◌%◌, ◌^◌, ◌≤◌, ◌<◌, ◌≡◌, refl, true, false, none, some, List, [], ◌∷◌, arith,
  inl, inr, Bool-cases, sym, ap, subst, ◌∙◌, length, length-append,
}
use aidv.Prelude.Memory.{Holds, Holds-append}
use aidv.Record.{Answer, answers}
use aidv.Recovery.LogRecord.{LogRecord, record_bytes, int_at, offset_log_tot_len}
use aidv.Recovery.LogRecord.RoundTrip.{length-record_bytes, log_tot_len_at}
use aidv.Recovery.Walk.{walk, less, lt→less, no_wrap, LogFits, log_bytes}

none-some : {A : Type 0} {a : A} → none ≡ some a → ⊥
none-some h = cc

some_eq : {S : Type 0} {a b : S} → some (answers a) ≡ some (answers b) → a ≡ b
some_eq h = cc

answers_eq : {S : Type 0} {a b : S} → answers a ≡ answers b → a ≡ b
answers_eq h = cc

module _ {S : Type 0} (buffer : ℕ → ℕ) (log_size : ℕ) (step : ℕ → S → Answer S)
    (Done : ℕ → S → Type 0)
    (does : (offset : ℕ) (s : S)
      → (s' : S) × (step offset s ≡ answers s') × Done offset s' × ((p : ℕ) → Done p s → Done p s'))
    (fixed : (offset : ℕ) (s : S) → Done offset s → step offset s ≡ answers s) where
  abbrev next : ℕ → ℕ
  next offset = (offset + int_at buffer (offset + offset_log_tot_len)) % 2 ^ 32

  -- One round, at a record.
  walk-more :
      (fuel offset : ℕ) (s : S)
      → less offset log_size ≡ true
      → walk buffer log_size step (suc fuel) offset s
        ≡ walk buffer log_size step fuel (next offset) (does offset s).0
  unfolding walk
  walk-more fuel offset s y = rw (y, (does offset s).1) refl

  walk-out : (offset : ℕ) (s : S) → walk buffer log_size step zero offset s ≡ none
  unfolding walk
  walk-out offset s = refl

  walk-stops :
      (fuel offset : ℕ) (s : S)
      → less offset log_size ≡ false
      → walk buffer log_size step (suc fuel) offset s ≡ some (answers s)
  unfolding walk
  walk-stops fuel offset s n = rw n refl

  walk-keeps :
      (fuel offset : ℕ) (s t : S) (p : ℕ)
      → walk buffer log_size step fuel offset s ≡ some (answers t)
      → Done p s
      → Done p t
  walk-keeps zero offset s t p e d = absurd (none-some (sym (walk-out offset s) ∙ e))
  walk-keeps (suc fuel) offset s t p e d = elim (Bool-cases (less offset log_size)) [
    | inl y ↦
        walk-keeps fuel (next offset) (does offset s).0 t p (sym (walk-more fuel offset s y) ∙ e)
          ((does offset s).3 p d)
    | inr n ↦ subst (Done p) (some_eq (sym (walk-stops fuel offset s n) ∙ e)) d
  ]

  pub walk-again :
      (fuel offset : ℕ) (s t : S)
      → walk buffer log_size step fuel offset s ≡ some (answers t)
      → walk buffer log_size step fuel offset t ≡ some (answers t)
  walk-again zero offset s t e = absurd (none-some (sym (walk-out offset s) ∙ e))
  walk-again (suc fuel) offset s t e = elim (Bool-cases (less offset log_size)) [
    | inl y ↦
        let rest = sym (walk-more fuel offset s y) ∙ e in
        let done =
          walk-keeps fuel (next offset) (does offset s).0 t offset rest (does offset s).2 in
        let same : (does offset t).0 ≡ t =
          answers_eq (sym (does offset t).1 ∙ fixed offset t done) in
        walk-more fuel offset t y ∙ rw same (walk-again fuel (next offset) (does offset s).0 t rest)
    | inr n ↦ walk-stops fuel offset t n
  ]

  -- The walk over a whole log ends without an exception.
  pub walk-ends :
      (fuel offset : ℕ) (rs : List LogRecord) (s : S)
      → LogFits rs
      → Holds buffer offset (log_bytes rs)
      → log_size < 2 ^ 31
      → log_size ≡ offset + length (log_bytes rs)
      → length rs < fuel
      → (t : S) × (walk buffer log_size step fuel offset s ≡ some (answers t))
  walk-ends zero offset rs s f h b e k = absurd (omega arith)
  walk-ends (suc fuel) offset [] s f h b e k = (s, walk-stops fuel offset s (ground arith))
  walk-ends (suc fuel) offset (r ∷ rs) s f h b e k =
      let parts = Holds-append buffer offset (record_bytes r) (log_bytes rs) h in
      let fits : offset + length (record_bytes r) ≤ log_size =
        omega (arith, length-append (record_bytes r) (log_bytes rs)) in
      let len : next offset ≡ offset + length (record_bytes r) =
        ap (λ (l : ℕ). (offset + l) % 2 ^ 32) (log_tot_len_at buffer offset r f.0 parts.0 ∙ f.1)
        ∙ no_wrap (offset + length (record_bytes r)) log_size fits b in
      let sum : log_size ≡ offset + length (record_bytes r) + length (log_bytes rs) =
        omega (arith, length-append (record_bytes r) (log_bytes rs)) in
      let more : less offset log_size ≡ true =
        lt→less offset log_size (omega (arith, length-record_bytes r)) b in
      let t =
        walk-ends fuel (offset + length (record_bytes r)) rs (does offset s).0 f.2 parts.1 b sum
          (omega arith) in
      (
        t.0,
        walk-more fuel offset s more
            ∙ subst
                (λ (o : ℕ). walk buffer log_size step fuel o (does offset s).0 ≡ some (answers t.0))
                (sym len) t.1,
      )
