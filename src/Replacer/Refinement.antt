-- ===== src/Replacer/Refinement.antt =====
-- The replacer with its list and its hash, against a queue of frames in order of use.
use aidv.Prelude.{
  ℕ, ◌≡◌, refl, Option, none, some, List, [], ◌∷◌, ◌++◌, arith, if◌then◌else◌, inl, inr,
  Option-cases,
}
use aidv.Prelude.Assoc.{lookup, lookup-insert, lookup-erase}
use aidv.Replacer.{LruReplacer, init, back, victim, pin, unpin, frames}
use aidv.Replacer.Order.{
  node_of, Distinct, elem, remove, erase_node-node_of, erase_node-Distinct, ids-erase_node,
  elem-node_of, node_of-elem, remove_absent, back-none, ids-pop_back, pop_back-node_of,
  pop_back-Distinct,
}

-- The hash holds the node of every frame in the list, and of no other.
pub record IsValid (r : LruReplacer) : Type 0 where
  pub distinct : Distinct r.next_node r.lru_list
  pub hashed : (f : ℕ) → lookup f r.lru_hash ≡ node_of f r.lru_list

-- The description: a queue of frames, with no node and no hash.
abbrev pub last : List ℕ → Option ℕ
last [] = none
last (x ∷ []) = some x
last (x ∷ y ∷ xs) = last (y ∷ xs)

abbrev pub init_of : List ℕ → List ℕ
init_of [] = []
init_of (x ∷ []) = []
init_of (x ∷ y ∷ xs) = x ∷ init_of (y ∷ xs)

pub data Call : Type 0 where
  evicts : Call
  pins unpins : ℕ → Call

pub queue_step : List ℕ → Call → List ℕ × Option ℕ
queue_step q evicts = (init_of q, last q)
queue_step q (pins f) = (remove f q, none)
queue_step q (unpins f) = (if elem f q then q else f ∷ q, none)

unfoldable pub step : LruReplacer → Call → LruReplacer × Option ℕ
step r evicts = victim r
step r (pins f) = (pin r f, none)
step r (unpins f) = (unpin r f, none)

last-append : (xs : List ℕ) (x : ℕ) → (last (xs ++ x ∷ []) ≡ some x) × (init_of (xs ++ x ∷ []) ≡ xs)
last-append [] x = (refl, refl)
last-append (y ∷ []) x = (refl, refl)
last-append (y ∷ z ∷ xs) x = ground (arith, last-append (z ∷ xs) x)

abbrev Refines : LruReplacer → LruReplacer × Option ℕ → Call → Type 0
Refines r after c =
    IsValid after.0
    × (frames after.0 ≡ (queue_step (frames r) c).0)
    × (after.1 ≡ (queue_step (frames r) c).1)

module _ (r : LruReplacer) (v : IsValid r) where
  open r use {lru_list, lru_hash, next_node}

  pub victim-Refines : Refines r (victim r) evicts
  unfolding victim frames queue_step
  victim-Refines = elim (Option-cases (back lru_list)) [
    | inl e ↦
        rw (e, victim)
          (v, ground (arith, back-none lru_list e), ground (arith, back-none lru_list e))
    | inr (x, e) ↦
        rw (e, victim, ids-pop_back lru_list x e)
          (
            record {
              distinct = pop_back-Distinct next_node lru_list x v.distinct e;
              hashed = λ f. ground (
                arith,
                lookup-erase x.frame_id f lru_hash,
                v.hashed f,
                pop_back-node_of next_node f lru_list x v.distinct e,
              );
            },
            ground (arith, last-append (frames (victim r).0) x.frame_id),
            ground (arith, last-append (frames (victim r).0) x.frame_id),
          )
  ]

  pub pin-Refines : (f : ℕ) → Refines r (pin r f, none) (pins f)
  unfolding pin frames queue_step
  pin-Refines f = elim (Option-cases (lookup f lru_hash)) [
    | inl e ↦
        rw (e, pin)
          (v, ground (arith, v.hashed f, elem-node_of f lru_list, remove_absent f (frames r)), refl)
    | inr (it, e) ↦
        rw (e, pin)
          (
            record {
              distinct =
                  erase_node-Distinct f it next_node lru_list v.distinct
                    (ground (arith, v.hashed f));
              hashed = λ q. ground (
                arith,
                lookup-erase f q lru_hash,
                v.hashed f,
                v.hashed q,
                erase_node-node_of f q it next_node lru_list v.distinct,
              );
            },
            ids-erase_node f it next_node lru_list v.distinct (ground (arith, v.hashed f)),
            refl,
          )
  ]

  pub unpin-Refines : (f : ℕ) → Refines r (unpin r f, none) (unpins f)
  unfolding unpin frames queue_step
  unpin-Refines f = elim (Option-cases (lookup f lru_hash)) [
    | inl e ↦
        rw (e, unpin)
          (
            record {
              distinct = (omega arith, ground (arith, v.hashed f), v.distinct);
              hashed = λ q. ground (arith, lookup-insert f q next_node lru_hash, v.hashed q);
            },
            ground (arith, v.hashed f, elem-node_of f lru_list),
            refl,
          )
    | inr (it, e) ↦ rw (e, unpin) (v, ground (arith, v.hashed f, node_of-elem f it lru_list), refl)
  ]

-- A method of the valid replacer does what the queue does: `victim` takes the least recently used
-- frame and fails on the empty queue only, `pin` takes the frame out, and `unpin` puts it in front
-- unless it is there. The replacer stays valid.
pub step-Refines : (r : LruReplacer) (c : Call) → IsValid r → Refines r (step r c) c
unfolding step
step-Refines r evicts v = victim-Refines r v
step-Refines r (pins f) v = pin-Refines r v f
step-Refines r (unpins f) v = unpin-Refines r v f

pub init-IsValid : (n : ℕ) → IsValid (init n)
unfolding init
init-IsValid n = record { distinct = tt; hashed = λ f. refl }

-- A history of calls, with the victims that it returned.
unfoldable pub run : LruReplacer → List Call → LruReplacer × List (Option ℕ)
run r [] = (r, [])
run r (c ∷ cs) = let (r', out) = step r c in let (r'', outs) = run r' cs in (r'', out ∷ outs)

pub queue_run : List ℕ → List Call → List ℕ × List (Option ℕ)
queue_run q [] = (q, [])
queue_run q (c ∷ cs) =
    let (q', out) = queue_step q c in let (q'', outs) = queue_run q' cs in (q'', out ∷ outs)

run-queue_run :
    (r : LruReplacer) (cs : List Call)
    → IsValid r
    → (frames (run r cs).0 ≡ (queue_run (frames r) cs).0)
      × ((run r cs).1 ≡ (queue_run (frames r) cs).1)
unfolding run queue_run
run-queue_run r [] v = (refl, refl)
run-queue_run r (c ∷ cs) v =
    let (v', f, o) = step-Refines r c v in
    rw (← f, ← o) (ground (arith, run-queue_run (step r c).0 cs v'))

-- From a new replacer, every history of calls returns the victims that the queue returns, and
-- leaves the queue's frames in the queue's order.
pub run-refines :
    (num_pages : ℕ) (cs : List Call)
    → (frames (run (init num_pages) cs).0 ≡ (queue_run [] cs).0)
      × ((run (init num_pages) cs).1 ≡ (queue_run [] cs).1)
unfolding init frames
run-refines num_pages cs = run-queue_run (init num_pages) cs (init-IsValid num_pages)
