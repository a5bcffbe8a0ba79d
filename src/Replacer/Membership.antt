-- ===== src/Replacer/Membership.antt =====
-- Which frames the replacer holds, after each of its methods: what the buffer pool relies on.
use aidv.Prelude.{
  ℕ, ◌≡◌, refl, none, some, List, [], ◌∷◌, arith, ◌==◌, if◌then◌else◌, Bool, true, false, inl, inr,
  Option-cases,
}
use aidv.Prelude.Assoc.{lookup, lookup-insert, lookup-erase}
use aidv.Replacer.{Node, LruReplacer, init, back, victim, pin, unpin}
use aidv.Replacer.Order.{node_of, back-none}
use aidv.Replacer.Refinement.{IsValid, victim-Refines, pin-Refines, unpin-Refines}

abbrev pub holds : LruReplacer → ℕ → Bool
holds r f = elim (lookup f r.lru_hash) [ none ↦ false | some _ ↦ true ]

module _ (r : LruReplacer) (v : IsValid r) where
  pub victim-IsValid : IsValid (victim r).0
  victim-IsValid = (victim-Refines r v).0

  pub pin-IsValid : (f : ℕ) → IsValid (pin r f)
  pin-IsValid f = (pin-Refines r v f).0

  pub unpin-IsValid : (f : ℕ) → IsValid (unpin r f)
  unpin-IsValid f = (unpin-Refines r v f).0

  back-node_of_self :
      (n : ℕ) (xs : List Node) (x : Node)
      → back xs ≡ some x
      → (i : ℕ) × (node_of x.frame_id xs ≡ some i)
  back-node_of_self n [] x e = absurd (cc)
  back-node_of_self n (y ∷ []) x e = (y.id, ground arith)
  back-node_of_self n (y ∷ z ∷ xs) x e =
      let (i, h) = back-node_of_self n (z ∷ xs) x e in
      (if y.frame_id == x.frame_id then y.id else i, ground arith)

  pub holds-victim-some :
      (f g : ℕ)
      → (victim r).1 ≡ some f
      → (holds r f ≡ true) × (holds (victim r).0 g ≡ (if f == g then false else holds r g))
  unfolding victim
  holds-victim-some f g h = elim (Option-cases (back r.lru_list)) [
    | inl e ↦ absurd (cc (rw (e, victim) at h))
    | inr (x, e) ↦
        let found = back-node_of_self 0 r.lru_list x e in
        (ground (arith, v.hashed f, found, e), ground (arith, lookup-erase f g r.lru_hash, e))
  ]

  pub holds-victim-none : (g : ℕ) → (victim r).1 ≡ none → ((victim r).0 ≡ r) × (holds r g ≡ false)
  unfolding victim
  holds-victim-none g h = elim (Option-cases (back r.lru_list)) [
    | inl e ↦ (ground (arith, e), ground (arith, v.hashed g, back-none r.lru_list e))
    | inr (x, e) ↦ absurd (ground (arith, e))
  ]

pub holds-pin :
    (r : LruReplacer) (f g : ℕ) → holds (pin r f) g ≡ (if f == g then false else holds r g)
unfolding pin
holds-pin r f g = ground (arith, lookup-erase f g r.lru_hash)

pub holds-unpin :
    (r : LruReplacer) (f g : ℕ) → holds (unpin r f) g ≡ (if f == g then true else holds r g)
unfolding unpin
holds-unpin r f g = ground (arith, lookup-insert f g r.next_node r.lru_hash)

pub holds-init : (n f : ℕ) → holds (init n) f ≡ false
unfolding init
holds-init n f = refl
