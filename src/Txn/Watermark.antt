-- ===== src/Txn/Watermark.antt =====
-- rmdb/src/transaction/watermark.{h,cpp}: the read timestamps of the running transactions, and the
-- threshold that garbage collection reads. A method runs under one mutex, so it is one step.
pub mod Reads
pub mod Minimum
use aidv.Prelude.{
  ℕ, ◌+◌, ◌-◌, ◌≡◌, Bool, true, false, ◌||◌, Option, none, some, List, [], ◌∷◌, ltb, ◌==◌,
  if◌then◌else◌,
}
use aidv.Prelude.Assoc.{lookup, erase}

pub record Watermark : Type 0 where
  pub commit_ts : ℕ
  pub watermark : ℕ
  pub current_reads : List (ℕ × ℕ)

-- `current_reads_[ts] = n` of the ordered std::map: the keys stay in ascending order.
unfoldable pub put : ℕ → ℕ → List (ℕ × ℕ) → List (ℕ × ℕ)
put ts n [] = (ts, n) ∷ []
put ts n ((j, m) ∷ rest) =
    if ts == j
    then (ts, n) ∷ rest
    else if ltb ts j
    then (ts, n) ∷ (j, m) ∷ rest
    else (j, m) ∷ put ts n rest

abbrev pub is_empty : List (ℕ × ℕ) → Bool
is_empty [] = true
is_empty (_ ∷ _) = false

unfoldable pub init : ℕ → Watermark
init commit_ts = record { commit_ts = commit_ts; watermark = commit_ts; current_reads = [] }

unfoldable pub add_txn : Watermark → ℕ → Watermark
add_txn w read_ts = elim (lookup read_ts w.current_reads) [
  | none ↦ record w {
    watermark =
        if is_empty w.current_reads || ltb read_ts w.watermark then read_ts else w.watermark;
    current_reads = put read_ts 1 w.current_reads;
  }
  | some n ↦ record w { current_reads = put read_ts (n + 1) w.current_reads }
]

-- The key of `begin()`, or the latest commit timestamp if no transaction runs.
unfoldable pub oldest : ℕ → List (ℕ × ℕ) → ℕ
oldest commit_ts [] = commit_ts
oldest commit_ts ((ts, _) ∷ _) = ts

unfoldable pub remove_txn : Watermark → ℕ → Watermark
remove_txn w read_ts = elim (lookup read_ts w.current_reads) [
  | none ↦ w
  | some n ↦
      let rest = erase read_ts w.current_reads in
      if ltb 0 (n - 1)
      then record w { current_reads = put read_ts (n - 1) w.current_reads }
      else record w { watermark = oldest w.commit_ts rest; current_reads = rest }
]

unfoldable pub update_commit_ts : Watermark → ℕ → Watermark
update_commit_ts w commit_ts =
    let latest = if ltb w.commit_ts commit_ts then commit_ts else w.commit_ts in
    record w {
      commit_ts = latest;
      watermark =
          if is_empty w.current_reads
          then (if ltb w.watermark latest then latest else w.watermark)
          else w.watermark;
    }

unfoldable pub get_watermark : Watermark → ℕ
get_watermark w = w.watermark

pub data Event : Type 0 where
  added removed committed : ℕ → Event

unfoldable pub step : Watermark → Event → Watermark
step w (added ts) = add_txn w ts
step w (removed ts) = remove_txn w ts
step w (committed ts) = update_commit_ts w ts

unfoldable pub run : Watermark → List Event → Watermark
run w [] = w
run w (e ∷ es) = run (step w e) es
