-- ===== src/Txn/Lock/Group.antt =====
-- One comparison with the group's mode stands for a comparison with every granted request.
use aidv.Prelude.{
  ℕ, ◌≡◌, refl, sym, ap, ==_iff, ◌∙◌, get_or, Bool, true, false, ◌&&◌, ◌||◌, not, List, [], ◌∷◌,
  arith, if◌then◌else◌,
}
use aidv.Txn.Lock.{
  LockMode, shared, exclusive, intention_shared, intention_exclusive, s_ix, gap, next_key,
  insert_intention, mode_index, mode_eq, LockRequest, has, group_mode_of, strongest, is_compatible,
}

-- The kinds of lock items, `LockDataType`.
pub data LockDataType : Type 0 where
  table_item record_item gap_item : LockDataType

-- The modes that the methods of the lock manager ask for on the kinds of items.
unfoldable pub requested : LockDataType → LockMode → Bool
requested table_item shared = true
requested table_item exclusive = true
requested table_item intention_shared = true
requested table_item intention_exclusive = true
requested record_item shared = true
requested record_item exclusive = true
requested gap_item gap = true
requested gap_item insert_intention = true
requested _ _ = false

-- Which locks exclude one another, written down apart from the program's table.
unfoldable pub conflicts : LockMode → LockMode → Bool
conflicts shared exclusive = true
conflicts shared intention_exclusive = true
conflicts exclusive shared = true
conflicts exclusive exclusive = true
conflicts exclusive intention_shared = true
conflicts exclusive intention_exclusive = true
conflicts intention_shared exclusive = true
conflicts intention_exclusive shared = true
conflicts intention_exclusive exclusive = true
conflicts gap insert_intention = true
conflicts insert_intention gap = true
conflicts _ _ = false

abbrev pub all_requested : LockDataType → List LockRequest → Bool
all_requested kind [] = true
all_requested kind (r ∷ requests) = requested kind r.lock_mode && all_requested kind requests

-- Some granted request excludes the mode.
abbrev pub conflicts_any : LockMode → List LockRequest → Bool
conflicts_any mode [] = false
conflicts_any mode (r ∷ requests) =
    (r.granted && conflicts mode r.lock_mode) || conflicts_any mode requests

mode_of : ℕ → LockMode
mode_of i =
    get_or
      (shared ∷ exclusive ∷ intention_shared ∷ intention_exclusive ∷ s_ix ∷ gap ∷ next_key
        ∷ insert_intention ∷ [])
      i shared

mode_of-mode_index : (mode : LockMode) → mode_of (mode_index mode) ≡ mode
unfolding mode_of
mode_of-mode_index shared = refl
mode_of-mode_index exclusive = refl
mode_of-mode_index intention_shared = refl
mode_of-mode_index intention_exclusive = refl
mode_of-mode_index s_ix = refl
mode_of-mode_index gap = refl
mode_of-mode_index next_key = refl
mode_of-mode_index insert_intention = refl

pub eq_of-mode_eq : (a b : LockMode) → mode_eq a b ≡ true → a ≡ b
unfolding mode_eq
eq_of-mode_eq a b h =
    let e = (==_iff (mode_index a) (mode_index b)).0 h in
    sym (mode_of-mode_index a) ∙ ap mode_of e ∙ mode_of-mode_index b

-- A mode that is never asked for is never granted.
pub has-requested :
    (kind : LockDataType) (mode : LockMode) (requests : List LockRequest)
    → all_requested kind requests ≡ true
    → requested kind mode ≡ false
    → has mode requests ≡ false
has-requested kind mode [] h k = refl
has-requested kind mode (r ∷ requests) h k =
    ground (arith, has-requested kind mode requests, eq_of-mode_eq r.lock_mode mode)

-- The granted requests that exclude the mode, by their modes.
conflicts_any-has :
    (mode : LockMode) (requests : List LockRequest)
    → conflicts_any mode requests
      ≡ (conflicts mode shared && has shared requests)
        || (conflicts mode exclusive && has exclusive requests)
        || (conflicts mode intention_shared && has intention_shared requests)
        || (conflicts mode intention_exclusive && has intention_exclusive requests)
        || (conflicts mode s_ix && has s_ix requests)
        || (conflicts mode gap && has gap requests)
        || (conflicts mode next_key && has next_key requests)
        || (conflicts mode insert_intention && has insert_intention requests)
unfolding mode_eq
conflicts_any-has mode [] = ground arith
conflicts_any-has mode (r ∷ requests) = ground (arith, conflicts_any-has mode requests)

-- A Boolean test that holds at both values holds.
abbrev both : (Bool → Bool) → Bool
both f = f true && f false

at_both : (f : Bool → Bool) → both f ≡ true → (b : Bool) → f b ≡ true
at_both f h true = ground arith
at_both f h false = ground arith

abbrev same : Bool → Bool → Bool
same a b = if a then b else not b

same-eq : (a b : Bool) → same a b ≡ true → a ≡ b
same-eq a b h = ground arith

abbrev table_test : LockMode → Bool → Bool → Bool → Bool → Bool
table_test mode has_s has_x has_is has_ix =
    same (is_compatible mode (strongest has_x false false has_s has_ix false has_is false)) (
      not (
        (conflicts mode shared && has_s)
        || (conflicts mode exclusive && has_x)
        || (conflicts mode intention_shared && has_is)
        || (conflicts mode intention_exclusive && has_ix)))

table_all :
    (mode : LockMode)
    → requested table_item mode ≡ true
    → both (λ a. both (λ b. both (λ c. both (λ d. table_test mode a b c d)))) ≡ true
unfolding is_compatible strongest conflicts requested
table_all shared h = refl
table_all exclusive h = refl
table_all intention_shared h = refl
table_all intention_exclusive h = refl
table_all s_ix h = absurd cc
table_all gap h = absurd cc
table_all next_key h = absurd cc
table_all insert_intention h = absurd cc

table_tested :
    (mode : LockMode) (a b c d : Bool)
    → requested table_item mode ≡ true
    → table_test mode a b c d ≡ true
table_tested mode a b c d h =
    at_both (λ d. table_test mode a b c d)
      (at_both (λ c. both (λ d. table_test mode a b c d))
        (at_both (λ b. both (λ c. both (λ d. table_test mode a b c d)))
          (at_both (λ a. both (λ b. both (λ c. both (λ d. table_test mode a b c d))))
            (table_all mode h) a)
          b)
        c)
      d

abbrev gap_test : LockMode → Bool → Bool → Bool
gap_test mode has_gap has_insert_int =
    same (is_compatible mode (strongest false false false false false has_gap false has_insert_int))
      (not ((conflicts mode gap && has_gap) || (conflicts mode insert_intention && has_insert_int)))

gap_tested :
    (mode : LockMode) (a b : Bool)
    → requested gap_item mode ≡ true
    → (a && b) ≡ false
    → gap_test mode a b ≡ true
unfolding is_compatible strongest conflicts requested
gap_tested gap true true h k = absurd cc
gap_tested gap true false h k = refl
gap_tested gap false true h k = refl
gap_tested gap false false h k = refl
gap_tested insert_intention true true h k = absurd cc
gap_tested insert_intention true false h k = refl
gap_tested insert_intention false true h k = refl
gap_tested insert_intention false false h k = refl
gap_tested shared a b h k = absurd cc
gap_tested exclusive a b h k = absurd cc
gap_tested intention_shared a b h k = absurd cc
gap_tested intention_exclusive a b h k = absurd cc
gap_tested s_ix a b h k = absurd cc
gap_tested next_key a b h k = absurd cc

module _ (mode : LockMode) (requests : List LockRequest) where
  table_group :
      all_requested table_item requests ≡ true
      → group_mode_of requests
        ≡ strongest
            (has exclusive requests)
            false
            false
            (has shared requests)
            (has intention_exclusive requests)
            false
            (has intention_shared requests)
            false
  unfolding group_mode_of requested
  table_group k =
      rw
        (
          has-requested table_item next_key requests k refl,
          has-requested table_item s_ix requests k refl,
          has-requested table_item gap requests k refl,
          has-requested table_item insert_intention requests k refl,
        )
        refl

  table_conflicts :
      all_requested table_item requests ≡ true
      → conflicts_any mode requests
        ≡ (conflicts mode shared && has shared requests)
          || (conflicts mode exclusive && has exclusive requests)
          || (conflicts mode intention_shared && has intention_shared requests)
          || (conflicts mode intention_exclusive && has intention_exclusive requests)
  unfolding requested
  table_conflicts k = ground (
    arith,
    conflicts_any-has mode requests,
    has-requested table_item next_key requests k refl,
    has-requested table_item s_ix requests k refl,
    has-requested table_item gap requests k refl,
    has-requested table_item insert_intention requests k refl,
  )

  gap_group :
      all_requested gap_item requests ≡ true
      → group_mode_of requests
        ≡ strongest false false false false false
            (has gap requests)
            false
            (has insert_intention requests)
  unfolding group_mode_of requested
  gap_group k =
      rw
        (
          has-requested gap_item exclusive requests k refl,
          has-requested gap_item next_key requests k refl,
          has-requested gap_item s_ix requests k refl,
          has-requested gap_item shared requests k refl,
          has-requested gap_item intention_exclusive requests k refl,
          has-requested gap_item intention_shared requests k refl,
        )
        refl

  gap_conflicts :
      all_requested gap_item requests ≡ true
      → conflicts_any mode requests
        ≡ (conflicts mode gap && has gap requests)
          || (conflicts mode insert_intention && has insert_intention requests)
  unfolding requested
  gap_conflicts k = ground (
    arith,
    conflicts_any-has mode requests,
    has-requested gap_item exclusive requests k refl,
    has-requested gap_item next_key requests k refl,
    has-requested gap_item s_ix requests k refl,
    has-requested gap_item shared requests k refl,
    has-requested gap_item intention_exclusive requests k refl,
    has-requested gap_item intention_shared requests k refl,
  )

  on_table :
      requested table_item mode ≡ true
      → all_requested table_item requests ≡ true
      → is_compatible mode (group_mode_of requests) ≡ not (conflicts_any mode requests)
  on_table h k =
      rw (table_group k, table_conflicts k)
        (same-eq _ _ (
          table_tested mode (has shared requests) (has exclusive requests)
            (has intention_shared requests) (has intention_exclusive requests) h))

-- The modes on records are among those on tables.
record-table :
    (requests : List LockRequest)
    → all_requested record_item requests ≡ true
    → all_requested table_item requests ≡ true
unfolding requested
record-table [] h = refl
record-table (r ∷ requests) h = ground (arith, record-table requests)

-- `is_compatible` with the group's mode says exactly whether no granted request excludes the mode,
-- for the modes that the lock manager asks for on one kind of items, if a gap lock and an insert
-- intention are never granted together.
pub is_compatible-conflicts_any :
    (kind : LockDataType) (mode : LockMode) (requests : List LockRequest)
    → requested kind mode ≡ true
    → all_requested kind requests ≡ true
    → (has gap requests && has insert_intention requests) ≡ false
    → is_compatible mode (group_mode_of requests) ≡ not (conflicts_any mode requests)
unfolding requested
is_compatible-conflicts_any table_item mode requests h k a = on_table mode requests h k
is_compatible-conflicts_any record_item mode requests h k a =
    on_table mode requests (ground arith) (record-table requests k)
is_compatible-conflicts_any gap_item mode requests h k a =
    rw (gap_group mode requests k, gap_conflicts mode requests k)
      (same-eq _ _ (gap_tested mode (has gap requests) (has insert_intention requests) h a))
