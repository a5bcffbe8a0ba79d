-- ===== src/Index/Node/Leaf.antt =====
-- The operations of a leaf against a sorted association list without positions.
use aidv.Prelude.{
  ℕ, ◌≡◌, refl, ap, true, false, Option, none, some, [], ◌∷◌, arith, get_elem?, if◌then◌else◌, inl,
  inr, Bool-cases,
}
use aidv.Index.Node.{
  KeyOrder, Rid, Pairs, lower_bound, rid_if, leaf_lookup, insert_pairs, insert, erase_pair, remove,
}
use aidv.Index.Node.Order.{above, Sorted, count_lt, bounds-count, above_trans}

module _ (o : KeyOrder) where
  abbrev pub find_key : o.Key → Pairs o → Option Rid
  find_key key [] = none
  find_key key ((k, rid) ∷ pairs) = if o.eq k key then some rid else find_key key pairs

  abbrev pub put_key : o.Key → Rid → Pairs o → Pairs o
  put_key key value [] = (key, value) ∷ []
  put_key key value ((k, rid) ∷ pairs) =
      if o.lt k key then (k, rid) ∷ put_key key value pairs else (key, value) ∷ (k, rid) ∷ pairs

  abbrev pub drop_key : o.Key → Pairs o → Pairs o
  drop_key key [] = []
  drop_key key ((k, rid) ∷ pairs) = if o.eq k key then pairs else (k, rid) ∷ drop_key key pairs

  find_above :
      (j key : o.Key) (pairs : Pairs o)
      → o.lt key j ≡ true
      → above o j pairs ≡ true
      → find_key key pairs ≡ none
  find_above j key [] h a = refl
  find_above j key ((k, rid) ∷ pairs) h a =
      ground (arith, find_above j key pairs, o.lt_trans key j k, o.eq_iff k key, o.lt_irrefl key)

  find_same : (key : o.Key) (pairs : Pairs o) → above o key pairs ≡ true → find_key key pairs ≡ none
  find_same key [] a = refl
  find_same key ((k, rid) ∷ pairs) a =
      ground (arith, find_same key pairs, o.eq_iff k key, o.lt_irrefl key)

  module _ (key : o.Key) where
    at_count :
        (pairs : Pairs o)
        → Sorted o pairs
        → rid_if o key (get_elem? pairs (count_lt o key pairs)) ≡ find_key key pairs
    at_count [] s = refl
    at_count ((k, rid) ∷ pairs) s = ground (
      arith,
      at_count pairs s.1,
      find_above k key pairs,
      s.0,
      o.lt_total k key,
      o.eq_iff k key,
      o.lt_irrefl key,
    )

    find-put_key :
        (value : Rid) (pairs : Pairs o) (q : o.Key)
        → find_key key pairs ≡ none
        → find_key q (put_key key value pairs)
          ≡ (if o.eq key q then some value else find_key q pairs)
    find-put_key value [] q h = refl
    find-put_key value ((k, rid) ∷ pairs) q h = ground (
      arith,
      find-put_key value pairs q,
      o.eq_iff k q,
      o.eq_iff key q,
      o.eq_refl q,
      o.eq_refl key,
    )

    above-put_key :
        (j : o.Key) (value : Rid) (pairs : Pairs o)
        → o.lt j key ≡ true
        → above o j pairs ≡ true
        → above o j (put_key key value pairs) ≡ true
    above-put_key j value [] h a = ground arith
    above-put_key j value ((k, rid) ∷ pairs) h a = ground (arith, above-put_key j value pairs)

    Sorted-put_key :
        (value : Rid) (pairs : Pairs o)
        → Sorted o pairs
        → find_key key pairs ≡ none
        → Sorted o (put_key key value pairs)
    Sorted-put_key value [] s h = (refl, tt)
    Sorted-put_key value ((k, rid) ∷ pairs) s h = elim (Bool-cases (o.lt k key)) [
      | inl y ↦
          rw (y) (above-put_key k value pairs y s.0, Sorted-put_key value pairs s.1 (ground arith))
      | inr n ↦
          rw (n) (ground (arith, o.lt_total k key, above_trans o key k pairs, s.0, n), (s.0, s.1))
    ]

    insert_at :
        (value : Rid) (pairs : Pairs o)
        → insert_pairs o pairs (count_lt o key pairs) ((key, value) ∷ []) ≡ put_key key value pairs
    unfolding insert_pairs
    insert_at value [] = refl
    insert_at value ((k, rid) ∷ pairs) = elim (Bool-cases (o.lt k key)) [
      | inl y ↦ rw (y) (ap (λ ps. (k, rid) ∷ ps) (insert_at value pairs))
      | inr n ↦ rw (n) refl
    ]

    erase_at :
        (pairs : Pairs o) (rid : Rid)
        → Sorted o pairs
        → find_key key pairs ≡ some rid
        → erase_pair o pairs (count_lt o key pairs) ≡ drop_key key pairs
    unfolding erase_pair
    erase_at [] rid s h = absurd cc
    erase_at ((k, v) ∷ pairs) rid s h = elim (Bool-cases (o.lt k key)) [
      | inl y ↦
          let n : o.eq k key ≡ false = ground (arith, y, o.eq_iff k key, o.lt_irrefl key) in
          rw (y, n) (ap (λ ps. (k, v) ∷ ps) (erase_at pairs rid s.1 (ground (arith, n))))
      | inr n ↦
          let y : o.eq k key ≡ true =
            ground (arith, n, o.lt_total k key, find_above k key pairs, s.0) in
          rw (n, y) refl
    ]

    find-drop_key :
        (pairs : Pairs o) (q : o.Key)
        → Sorted o pairs
        → find_key q (drop_key key pairs) ≡ (if o.eq key q then none else find_key q pairs)
    find-drop_key [] q s = ground arith
    find-drop_key ((k, rid) ∷ pairs) q s = elim (Bool-cases (o.eq k key)) [
      | inl y ↦
          ground (arith, y, find_same k pairs, s.0, o.eq_iff k key, o.eq_iff key q, o.eq_refl q)
      | inr n ↦
          ground (arith, n, find-drop_key pairs q s.1, o.eq_iff k q, o.eq_iff key q, o.eq_refl q)
    ]

    above-drop_key :
        (j : o.Key) (pairs : Pairs o)
        → above o j pairs ≡ true
        → above o j (drop_key key pairs) ≡ true
    above-drop_key j [] a = refl
    above-drop_key j ((k, rid) ∷ pairs) a = ground (arith, above-drop_key j pairs)

    Sorted-drop_key : (pairs : Pairs o) → Sorted o pairs → Sorted o (drop_key key pairs)
    Sorted-drop_key [] s = tt
    Sorted-drop_key ((k, rid) ∷ pairs) s = elim (Bool-cases (o.eq k key)) [
      | inl y ↦ rw (y) s.1
      | inr n ↦ rw (n) (above-drop_key k pairs s.0, Sorted-drop_key pairs s.1)
    ]

  module _ (pairs : Pairs o) (s : Sorted o pairs) (key : o.Key) where
    -- In sorted pairs the binary search finds the rid of exactly the keys that are there.
    pub leaf_lookup-find_key : leaf_lookup o pairs key ≡ find_key key pairs
    unfolding leaf_lookup
    leaf_lookup-find_key = rw ((bounds-count o pairs key s).0) (at_count key pairs s)

    found : rid_if o key (get_elem? pairs (lower_bound o pairs key)) ≡ find_key key pairs
    unfolding leaf_lookup
    found = leaf_lookup-find_key

    abbrev pub either : Option Rid → Rid → Rid
    either none value = value
    either (some rid) value = rid

    inserted_at :
        (value : Rid) (pos : ℕ) (present : Option Rid)
        → pos ≡ count_lt o key pairs
        → find_key key pairs ≡ present
        → let pairs' = elim present as (λ _. Pairs o) [
          | some _ ↦ pairs
          | none ↦ insert_pairs o pairs pos ((key, value) ∷ [])
        ] in
          Sorted o pairs'
          × ((q : o.Key)
              → find_key q pairs'
                ≡ (if o.eq key q then some (either present value) else find_key q pairs))
    inserted_at value pos none at e =
        rw (at, insert_at key value pairs)
          (Sorted-put_key key value pairs s e, λ q. find-put_key key value pairs q e)
    inserted_at value pos (some rid) at e = (s, λ q. ground (arith, e, o.eq_iff key q))

    -- Inserting into sorted pairs keeps them sorted. The key is there then, with the old rid if it was
    -- there before and the new one if not, and every other key is as before.
    pub insert-find_key :
        (value : Rid)
        → Sorted o (insert o pairs key value)
          × ((q : o.Key)
              → find_key q (insert o pairs key value) ≡ (
                  if o.eq key q
                  then some (either (find_key key pairs) value)
                  else find_key q pairs))
    unfolding insert
    insert-find_key value =
        rw (found, insert)
          (inserted_at value (lower_bound o pairs key) (find_key key pairs)
            (bounds-count o pairs key s).0 refl)

    removed_at :
        (pos : ℕ) (present : Option Rid)
        → pos ≡ count_lt o key pairs
        → find_key key pairs ≡ present
        → let pairs' = elim present as (λ _. Pairs o) [
          | some _ ↦ erase_pair o pairs pos
          | none ↦ pairs
        ] in
          Sorted o pairs'
          × ((q : o.Key) → find_key q pairs' ≡ (if o.eq key q then none else find_key q pairs))
    removed_at pos none at e = (s, λ q. ground (arith, e, o.eq_iff key q))
    removed_at pos (some rid) at e =
        rw (at, erase_at key pairs rid s e)
          (Sorted-drop_key key pairs s, λ q. find-drop_key key pairs q s)

    -- Removing from sorted pairs keeps them sorted. The key is not there then, and every other key is
    -- as before.
    pub remove-find_key :
        Sorted o (remove o pairs key)
        × ((q : o.Key)
            → find_key q (remove o pairs key) ≡ (if o.eq key q then none else find_key q pairs))
    unfolding remove
    remove-find_key =
        rw (found, remove)
          (removed_at (lower_bound o pairs key) (find_key key pairs) (bounds-count o pairs key s).0
            refl)
