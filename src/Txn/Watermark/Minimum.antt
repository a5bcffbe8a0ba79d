-- ===== src/Txn/Watermark/Minimum.antt =====
-- The watermark against its description: the running transactions' read timestamps as a plain list.
use aidv.Prelude.{
  ℕ, suc, ◌+◌, ◌-◌, ◌≤◌, ◌<◌, ◌≡◌, refl, ap, ◌∙◌, ◌||◌, none, some, List, [], ◌∷◌, arith, ltb, ◌==◌,
  if◌then◌else◌, inl, inr, Option-cases,
}
use aidv.Prelude.Assoc.{lookup, erase, lookup-erase}
use aidv.Txn.Watermark.{
  Watermark, Event, added, removed, committed, put, is_empty, oldest, init, add_txn, remove_txn,
  update_commit_ts, get_watermark, step, run,
}
use aidv.Txn.Watermark.Reads.{
  Ordered, readers, lookup_below, put-Ordered, readers-put, erase-Ordered, first_least,
}

pub record Running : Type 0 where
  pub active : List ℕ
  pub latest : ℕ

abbrev pub count : ℕ → List ℕ → ℕ
count t [] = 0
count t (x ∷ xs) = if x == t then suc (count t xs) else count t xs

abbrev drop_one : ℕ → List ℕ → List ℕ
drop_one t [] = []
drop_one t (x ∷ xs) = if x == t then xs else x ∷ drop_one t xs

pub running_step : Running → Event → Running
running_step r (added ts) = record r { active = ts ∷ r.active }
running_step r (removed ts) = record r { active = drop_one ts r.active }
running_step r (committed ts) = record r { latest = if ltb r.latest ts then ts else r.latest }

pub running : Running → List Event → Running
running r [] = r
running r (e ∷ es) = running (running_step r e) es

count-drop_one :
    (t q : ℕ) (xs : List ℕ)
    → count q (drop_one t xs) ≡ (if t == q then count q xs - 1 else count q xs)
count-drop_one t q [] = ground arith
count-drop_one t q (x ∷ xs) = ground (arith, count-drop_one t q xs)

pub record Tracks (w : Watermark) (r : Running) : Type 0 where
  pub ordered : Ordered w.current_reads
  pub counts : (t : ℕ) → readers t w.current_reads ≡ count t r.active
  pub latest : w.commit_ts ≡ r.latest
  pub least : w.watermark ≡ oldest w.commit_ts w.current_reads

oldest-put_new :
    (c t : ℕ) (m : List (ℕ × ℕ))
    → lookup t m ≡ none
    → oldest c (put t 1 m) ≡ (if is_empty m || ltb t (oldest c m) then t else oldest c m)
unfolding oldest put
oldest-put_new c t [] e = refl
oldest-put_new c t ((k, n) ∷ m) e = ground arith

oldest-put_old :
    (c t i n : ℕ) (m : List (ℕ × ℕ))
    → Ordered m
    → lookup t m ≡ some n
    → oldest c (put t i m) ≡ oldest c m
unfolding oldest put
oldest-put_old c t i n [] o e = cc
oldest-put_old c t i n ((k, j) ∷ m) o e = ground (arith, lookup_below t k m o.1)

readers_of : (t n : ℕ) (m : List (ℕ × ℕ)) → lookup t m ≡ some n → readers t m ≡ n
readers_of t n m e = rw (e, readers)

readers-none : (t : ℕ) (m : List (ℕ × ℕ)) → lookup t m ≡ none → readers t m ≡ 0
readers-none t m e = rw (e, readers)

readers-erase :
    (t q : ℕ) (m : List (ℕ × ℕ)) → readers q (erase t m) ≡ (if t == q then 0 else readers q m)
readers-erase t q m = ground (arith, lookup-erase t q m)

oldest_later :
    (c later watermark : ℕ) (m : List (ℕ × ℕ))
    → watermark ≡ oldest c m
    → c ≤ later
    → (if is_empty m then (if ltb watermark later then later else watermark) else watermark)
      ≡ oldest later m
unfolding oldest
oldest_later c later watermark [] e h = ground arith
oldest_later c later watermark (_ ∷ m) e h = e

module _ (w : Watermark) (r : Running) (k : Tracks w r) (ts : ℕ) where
  open w use {current_reads}

  add_txn-Tracks : Tracks (add_txn w ts) (running_step r (added ts))
  unfolding add_txn running_step
  add_txn-Tracks = elim (Option-cases (lookup ts current_reads)) [
    | inl e ↦
        rw (e, add_txn)
          (record {
            ordered = put-Ordered ts 1 current_reads (omega arith) k.ordered;
            counts = λ t. ground (
              arith,
              readers-put ts 1 t current_reads k.ordered,
              k.counts t,
              readers-none ts current_reads e,
            );
            latest = k.latest;
            least = ground (arith, oldest-put_new w.commit_ts ts current_reads e, k.least);
          })
    | inr (n, e) ↦
        rw (e, add_txn)
          (record {
            ordered = put-Ordered ts (n + 1) current_reads (omega arith) k.ordered;
            counts = λ t. ground (
              arith,
              readers-put ts (n + 1) t current_reads k.ordered,
              k.counts t,
              readers_of ts n current_reads e,
            );
            latest = k.latest;
            least =
                ground (
                  arith,
                  oldest-put_old w.commit_ts ts (n + 1) n current_reads k.ordered e,
                  k.least,
                );
          })
  ]

  remove_txn-Tracks : Tracks (remove_txn w ts) (running_step r (removed ts))
  unfolding remove_txn running_step
  remove_txn-Tracks = elim (Option-cases (lookup ts current_reads)) [
    | inl e ↦
        rw (e, remove_txn)
          (record {
            ordered = k.ordered;
            counts = λ t.
                ground (
                  arith,
                  count-drop_one ts t r.active,
                  k.counts t,
                  readers-none ts current_reads e,
                );
            latest = k.latest;
            least = k.least;
          })
    | inr (n, e) ↦
        rw (e, remove_txn)
          (record {
            ordered = ground (
              arith,
              put-Ordered ts (n - 1) current_reads,
              erase-Ordered ts current_reads k.ordered,
            );
            counts = λ t. ground (
              arith,
              readers-put ts (n - 1) t current_reads k.ordered,
              readers-erase ts t current_reads,
              count-drop_one ts t r.active,
              k.counts t,
              readers_of ts n current_reads e,
            );
            latest = ground (arith, k.latest);
            least =
                ground (
                  arith,
                  oldest-put_old w.commit_ts ts (n - 1) n current_reads k.ordered e,
                  k.least,
                );
          })
  ]

  update_commit_ts-Tracks : Tracks (update_commit_ts w ts) (running_step r (committed ts))
  unfolding update_commit_ts running_step
  update_commit_ts-Tracks = record {
    ordered = k.ordered;
    counts = k.counts;
    latest = ground (arith, k.latest);
    least = oldest_later w.commit_ts _ w.watermark current_reads k.least (ground arith);
  }

step-Tracks :
    (w : Watermark) (r : Running) (e : Event) → Tracks w r → Tracks (step w e) (running_step r e)
unfolding step
step-Tracks w r (added ts) k = add_txn-Tracks w r k ts
step-Tracks w r (removed ts) k = remove_txn-Tracks w r k ts
step-Tracks w r (committed ts) k = update_commit_ts-Tracks w r k ts

run-Tracks :
    (w : Watermark) (r : Running) (es : List Event) → Tracks w r → Tracks (run w es) (running r es)
unfolding run running
run-Tracks w r [] k = k
run-Tracks w r (e ∷ es) k = run-Tracks (step w e) (running_step r e) es (step-Tracks w r e k)

abbrev pub start : ℕ → Running
start commit_ts = record { active = []; latest = commit_ts }

init-Tracks : (c : ℕ) → Tracks (init c) (start c)
unfolding init oldest
init-Tracks c = record { ordered = tt; counts = λ t. refl; latest = refl; least = refl }

-- The watermark of a state that tracks a set of running transactions.
pub IsMinimum : ℕ → Running → Type 0
IsMinimum m r =
    (r.active ≡ [] → m ≡ r.latest)
    × ((t : ℕ) → 0 < count t r.active → (0 < count m r.active) × (m ≤ t))

oldest-readers :
    (c t : ℕ) (m : List (ℕ × ℕ))
    → Ordered m
    → 0 < readers t m
    → (0 < readers (oldest c m) m) × (oldest c m ≤ t)
unfolding oldest
oldest-readers c t [] o h = elim h [ ]
oldest-readers c t ((k, n) ∷ m) o h = (ground arith, first_least k n t m o.1 h)

no-readers : (c : ℕ) (m : List (ℕ × ℕ)) → Ordered m → ((t : ℕ) → readers t m ≡ 0) → oldest c m ≡ c
unfolding oldest
no-readers c [] o h = refl
no-readers c ((k, n) ∷ m) o h = ground (arith, h k)

Tracks-IsMinimum : (w : Watermark) (r : Running) → Tracks w r → IsMinimum (get_watermark w) r
unfolding get_watermark IsMinimum
Tracks-IsMinimum w r k = (
  λ e.
      omega (
        arith,
        no-readers w.commit_ts w.current_reads k.ordered (λ t. k.counts t ∙ ap (count t) e),
      ),
  λ t h.
      let below =
        oldest-readers w.commit_ts t w.current_reads k.ordered (omega (arith, k.counts t)) in
      (rw (k.least, ← k.counts (oldest w.commit_ts w.current_reads)) below.0, omega arith),
)

-- After any history of begins, ends and commit timestamps, the watermark is the least read
-- timestamp of the running transactions, and the latest commit timestamp if none runs.
pub get_watermark-IsMinimum :
    (commit_ts : ℕ) (es : List Event)
    → IsMinimum (get_watermark (run (init commit_ts) es)) (running (start commit_ts) es)
get_watermark-IsMinimum commit_ts es =
    Tracks-IsMinimum _ _ (run-Tracks (init commit_ts) (start commit_ts) es (init-Tracks commit_ts))
