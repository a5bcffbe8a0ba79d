-- ===== src/Txn/Lock/Upgrade.antt =====
-- The upgrade of a shared lock: it is made only where no other transaction has a lock.
use aidv.Prelude.{
  ℕ, ◌≡◌, refl, inl, inr, Bool, true, false, ◌&&◌, List, [], ◌∷◌, arith, ◌==◌, Bool-cases,
}
use aidv.Txn.Lock.{
  LockMode, exclusive, gap, LockRequest, others_granted, Holding, covered, conflicting, uncovered,
  upgraded, after, holding, covers, is_upgrade, update_group_lock_mode,
}
use aidv.Txn.Lock.Group.{
  LockDataType, table_item, record_item, gap_item, requested, all_requested, eq_of-mode_eq,
  has-requested,
}
use aidv.Txn.Lock.Peace.{QueueInv, peaceful, clash_any, clash_any-waiting}

-- What is left where the requests have been upgraded.
abbrev pub Upgraded : LockDataType → ℕ → Bool → List LockRequest → Holding → Type 0
Upgraded kind my_id others requests (upgraded requests') =
    (others ≡ false)
    × (requested kind exclusive ≡ true)
    × (others_granted my_id requests' ≡ others_granted my_id requests)
    × (all_requested kind requests' ≡ true)
Upgraded kind my_id others requests _ = Unit {0}

module _ (kind : LockDataType) (my_id : ℕ) (mode : LockMode) (others : Bool)
    (asked : requested kind mode ≡ true) where
  after-Upgraded :
      (r : LockRequest) (requests : List LockRequest) (h : Holding)
      → all_requested kind (r ∷ requests) ≡ true
      → Upgraded kind my_id others requests h
      → Upgraded kind my_id others (r ∷ requests) (after r h)
  after-Upgraded r requests covered a k = tt
  after-Upgraded r requests conflicting a k = tt
  after-Upgraded r requests uncovered a k = tt
  after-Upgraded r requests (upgraded requests') a (o, x, s, m) =
      (o, x, ground (arith, s), ground (arith, m))

  exclusive_asked :
      (r : LockRequest) → is_upgrade r.lock_mode mode ≡ true → requested kind exclusive ≡ true
  unfolding is_upgrade
  exclusive_asked r u = rw (← mode_exclusive u) asked
    where
      mode_exclusive : is_upgrade r.lock_mode mode ≡ true → mode ≡ exclusive
      mode_exclusive u = eq_of-mode_eq mode exclusive (ground arith)

  pub holding-Upgraded :
      (requests : List LockRequest)
      → all_requested kind requests ≡ true
      → Upgraded kind my_id others requests (holding my_id mode others requests)
  unfolding holding
  holding-Upgraded [] a = tt
  holding-Upgraded (r ∷ requests) a =
      let rest =
        after-Upgraded r requests (holding my_id mode others requests) a
          (holding-Upgraded requests (ground arith)) in
      elim (Bool-cases (r.txn_id == my_id && r.granted)) [
        | inr n ↦ rw (n) rest
        | inl own ↦ elim (Bool-cases (is_upgrade r.lock_mode mode)) [
          | inr n ↦ elim (Bool-cases (covers r.lock_mode mode)) [
            | inl c ↦ rw (own, n, c) tt
            | inr c ↦ rw (own, n, c) rest
          ]
          | inl u ↦ elim (Bool-cases others) [
            | inl o ↦ rw (own, u, o) tt
            | inr o ↦
                rw (own, u, o)
                  (refl, exclusive_asked r u, ground arith, ground (arith, exclusive_asked r u))
          ]
        ]
      ]

clash_any-alone :
    (my_id : ℕ) (a : LockRequest) (requests : List LockRequest)
    → others_granted my_id requests ≡ false
    → a.txn_id ≡ my_id
    → clash_any a requests ≡ false
clash_any-alone my_id a [] h e = refl
clash_any-alone my_id a (r ∷ requests) h e = ground (arith, clash_any-alone my_id a requests)

peaceful-alone :
    (my_id : ℕ) (requests : List LockRequest)
    → others_granted my_id requests ≡ false
    → peaceful requests ≡ true
peaceful-alone my_id [] h = refl
peaceful-alone my_id (r ∷ requests) h = elim (Bool-cases (r.txn_id == my_id)) [
  | inl own ↦ ground (arith, peaceful-alone my_id requests, clash_any-alone my_id r requests)
  | inr n ↦ ground (arith, peaceful-alone my_id requests, clash_any-waiting r requests)
]

-- Where a shared lock can be upgraded, gaps are not asked for.
no_gap : (kind : LockDataType) → requested kind exclusive ≡ true → requested kind gap ≡ false
unfolding requested
no_gap table_item h = refl
no_gap record_item h = refl
no_gap gap_item h = absurd cc

pub upgraded-QueueInv :
    (kind : LockDataType) (my_id : ℕ) (requests requests' : List LockRequest)
    → Upgraded kind my_id (others_granted my_id requests) requests (upgraded requests')
    → QueueInv kind (update_group_lock_mode requests')
unfolding update_group_lock_mode
upgraded-QueueInv kind my_id requests requests' (o, h, s, m) = record {
  modes = m;
  group = refl;
  apart = ground (arith, has-requested kind gap requests' m (no_gap kind h));
  peace = peaceful-alone my_id requests' (ground (arith, o, s));
}
