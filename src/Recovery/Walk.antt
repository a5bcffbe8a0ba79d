-- ===== src/Recovery/Walk.antt =====
-- The loop over the log that `analyze` and `redo` of rmdb/src/recovery/log_recovery.cpp share, and
-- the logs that the log manager writes: one record after another.
pub mod Again
use aidv.Prelude.{
  ℕ, zero, suc, ◌+◌, ◌-◌, ◌%◌, ◌^◌, ◌≤◌, ◌<◌, ◌≡◌, refl, Bool, true, false, Option, none, some,
  List, [], ◌∷◌, ◌++◌, ltb, lt→ltb, if◌then◌else◌, length, length-append, arith, sym, ap, ◌∙◌,
}
use aidv.Prelude.Memory.{Holds, Holds-append}
use aidv.Record.{Answer, answers, fails}
use aidv.Recovery.LogRecord.{
  LogRecord, LogHeader, offset_log_tot_len, record_bytes, header_bytes, body_bytes, int_at,
  deserialize_header,
}
use aidv.Recovery.LogRecord.RoundTrip.{RecordFits, HeaderFits, length-record_bytes, log_tot_len_at}

-- An exception ends the loop.
abbrev pub go_on : {S : Type 0} → (S → Option (Answer S)) → Answer S → Option (Answer S)
go_on rest (fails e) = some (fails e)
go_on rest (answers s) = rest s

-- A comparison of the patterns of two ints.
abbrev pub less : ℕ → ℕ → Bool
less a b = ltb ((a + 2 ^ 31) % 2 ^ 32) ((b + 2 ^ 31) % 2 ^ 32)

module _ {S : Type 0} (buffer : ℕ → ℕ) (log_size : ℕ) (step : ℕ → S → Answer S) where
  -- `step` takes the offset of a record. The offset and the size are ints, as patterns of 32 bits.
  -- `none` is the end of the fuel.
  unfoldable pub walk : ℕ → ℕ → S → Option (Answer S)
  walk zero offset s = none
  walk (suc fuel) offset s =
      let rest =
        go_on (walk fuel ((offset + int_at buffer (offset + offset_log_tot_len)) % 2 ^ 32))
          (step offset s) in
      if less offset log_size then rest else some (answers s)

abbrev pub log_bytes : List LogRecord → List ℕ
log_bytes [] = []
log_bytes (r ∷ rs) = record_bytes r ++ log_bytes rs

-- The records with their offsets.
abbrev pub placed : ℕ → List LogRecord → List (ℕ × LogRecord)
placed offset [] = []
placed offset (r ∷ rs) = (offset, r) ∷ placed (offset + length (record_bytes r)) rs

-- The log is whole: its numbers fit, and each record says how long it is.
abbrev pub LogFits : List LogRecord → Type 0
LogFits [] = Unit
LogFits (r ∷ rs) = RecordFits r × (r.header.log_tot_len ≡ length (record_bytes r)) × LogFits rs

abbrev pub fold_records :
    {S : Type 0} → (ℕ → LogRecord → S → Answer S) → List (ℕ × LogRecord) → S → Answer S
fold_records step [] s = answers s
fold_records step ((offset, r) ∷ rs) s = elim (step offset r s) [
  | fails e ↦ fails e
  | answers s' ↦ fold_records step rs s'
]

pub lt→less : (a b : ℕ) → a < b → b < 2 ^ 31 → less a b ≡ true
lt→less a b h k = lt→ltb ((a + 2 ^ 31) % 2 ^ 32) ((b + 2 ^ 31) % 2 ^ 32) (omega arith)

pub no_wrap : (a b : ℕ) → a ≤ b → b < 2 ^ 31 → a % 2 ^ 32 ≡ a
no_wrap a b h k = omega arith

pub length-log_bytes : (rs : List LogRecord) → length rs ≤ length (log_bytes rs)
length-log_bytes [] = omega arith
length-log_bytes (r ∷ rs) = omega (
  arith,
  length-append (record_bytes r) (log_bytes rs),
  length-record_bytes r,
  length-log_bytes rs,
)

module _ {S : Type 0} (buffer : ℕ → ℕ) (log_size : ℕ) (step : ℕ → S → Answer S)
    (step' : ℕ → LogRecord → S → Answer S)
    (same : (offset : ℕ) (r : LogRecord) (s : S)
      → RecordFits r
      → Holds buffer offset (record_bytes r)
      → step offset s ≡ step' offset r s) where
  go_on-fold :
      (rest : S → Option (Answer S)) (rs : List (ℕ × LogRecord)) (a : Answer S)
      → ((s : S) → rest s ≡ some (fold_records step' rs s))
      → go_on rest a
        ≡ some
            (elim a as (λ _. Answer S) [ fails e ↦ fails e | answers s ↦ fold_records step' rs s ])
  go_on-fold rest rs (fails e) h = refl
  go_on-fold rest rs (answers s) h = h s

  -- The walk over a whole log takes each record once, in order, if the fuel is more than their number.
  pub walk-fold_records :
      (fuel offset : ℕ) (rs : List LogRecord) (s : S)
      → LogFits rs
      → Holds buffer offset (log_bytes rs)
      → log_size < 2 ^ 31
      → log_size ≡ offset + length (log_bytes rs)
      → length rs < fuel
      → walk buffer log_size step fuel offset s ≡ some (fold_records step' (placed offset rs) s)
  unfolding walk
  walk-fold_records zero offset rs s f h b e k = absurd (omega arith)
  walk-fold_records (suc fuel) offset [] s f h b e k = ground arith
  walk-fold_records (suc fuel) offset (r ∷ rs) s f h b e k =
      let parts = Holds-append buffer offset (record_bytes r) (log_bytes rs) h in
      let len : int_at buffer (offset + offset_log_tot_len) ≡ length (record_bytes r) =
        log_tot_len_at buffer offset r f.0 parts.0 ∙ f.1 in
      let sum : log_size ≡ offset + length (record_bytes r) + length (log_bytes rs) =
        omega (arith, length-append (record_bytes r) (log_bytes rs)) in
      let more : less offset log_size ≡ true =
        lt→less offset log_size (omega (arith, length-record_bytes r)) b in
      let next = no_wrap (offset + length (record_bytes r)) log_size (omega arith) b in
      rw (more, len, next, same offset r s f.0 parts.0)
        (go_on-fold (walk buffer log_size step fuel (offset + length (record_bytes r)))
          (placed (offset + length (record_bytes r)) rs) (step' offset r s)
          (λ s'.
            walk-fold_records fuel (offset + length (record_bytes r)) rs s' f.2 parts.1 b sum
              (omega arith)))
