-- ===== src/Txn/Manager/Collection.antt =====
-- What the garbage collection keeps, and that it leaves no link to a transaction that is gone.
use aidv.Prelude.{
  listed, ℕ, ◌≡◌, ◌≢◌, refl, sym, subst, Bool, true, false, ◌&&◌, ◌||◌, not, Option, none, some,
  List, [], ◌∷◌, arith, ◌==◌, ltb, if◌then◌else◌, inl, inr, Bool-cases,
}
use aidv.Prelude.Assoc.{lookup, erase, lookup-erase}
use aidv.Txn.Watermark.{get_watermark}
use aidv.Txn.Manager.{
  Transaction, Manager, VersionUndoLink, is_finished, ts_below, to_erase, erase_each, is_stale,
  drop_stale, clean_pages, slots_of, get_version_link, global_min, least_active, int64_max,
  garbage_collection,
}

-- No id stands twice in the map.
abbrev pub Keyed : List (ℕ × Transaction) → Type 0
Keyed [] = Unit {0}
Keyed ((id, _) ∷ txns) = (lookup id txns ≡ none) × Keyed txns

lookup-erase_each :
    (ids : List ℕ) (id : ℕ) (txns : List (ℕ × Transaction))
    → lookup id (erase_each ids txns) ≡ (if listed id ids then none else lookup id txns)
unfolding erase_each
lookup-erase_each [] id txns = refl
lookup-erase_each (k ∷ ids) id txns =
    ground (arith, lookup-erase_each ids id (erase k txns), lookup-erase k id txns)

to_erase-absent :
    (limit id : ℕ) (txns : List (ℕ × Transaction))
    → lookup id txns ≡ none
    → listed id (to_erase limit txns) ≡ false
unfolding to_erase
to_erase-absent limit id [] h = refl
to_erase-absent limit id ((k, t) ∷ txns) h = ground (arith, to_erase-absent limit id txns)

to_erase-listed :
    (limit id : ℕ) (txns : List (ℕ × Transaction)) (t : Transaction)
    → Keyed txns
    → lookup id txns ≡ some t
    → listed id (to_erase limit txns) ≡ (is_finished t.state && ts_below t.commit_ts limit)
unfolding to_erase
to_erase-listed limit id [] t k e = absurd cc
to_erase-listed limit id ((j, s) ∷ txns) t k e = elim (Bool-cases (j == id)) [
  | inl y ↦ ground (arith, to_erase-absent limit id txns, k.0, y, e)
  | inr n ↦ ground (arith, to_erase-listed limit id txns t k.1)
]

-- The timestamp was given at the limit or later. INVALID_TS never was.
abbrev pub reaches : Option ℕ → ℕ → Bool
reaches ts limit = not (ts_below ts limit)

-- Some registered thread reads at the commit timestamp or before it.
abbrev pub read_by_thread : Option ℕ → List ℕ → Bool
read_by_thread commit_ts [] = false
read_by_thread commit_ts (ts ∷ slots) =
    ltb 0 ts && reaches commit_ts ts || read_by_thread commit_ts slots

-- The transaction runs, or it has finished at the watermark or later, or at the timestamp of a
-- registered thread or later. No timestamp is above INT64_MAX.
abbrev pub is_needed : ℕ → List ℕ → Transaction → Bool
is_needed watermark slots t =
    not (is_finished t.state)
    || (reaches t.commit_ts watermark
        || (read_by_thread t.commit_ts slots || reaches t.commit_ts int64_max))

least_active-reaches :
    (ts : Option ℕ) (least : ℕ) (slots : List ℕ)
    → reaches ts (least_active least slots) ≡ (read_by_thread ts slots || reaches ts least)
unfolding least_active
least_active-reaches none least [] = refl
least_active-reaches none least (k ∷ slots) =
    ground (arith, least_active-reaches none (if ltb 0 k && ltb k least then k else least) slots)
least_active-reaches (some ts) least [] = refl
least_active-reaches (some ts) least (k ∷ slots) =
    ground
      (arith, least_active-reaches (some ts) (if ltb 0 k && ltb k least then k else least) slots)

reaches-global_min :
    (ts : Option ℕ) (watermark : ℕ) (slots : List ℕ)
    → reaches ts (global_min watermark slots)
      ≡ (reaches ts watermark || (read_by_thread ts slots || reaches ts int64_max))
unfolding global_min
reaches-global_min none watermark slots = ground (arith, least_active-reaches none int64_max slots)
reaches-global_min (some ts) watermark slots =
    ground (arith, least_active-reaches (some ts) int64_max slots)

-- The link leads nowhere, or to a transaction of the map.
abbrev pub leads : List (ℕ × Transaction) → VersionUndoLink → Bool
leads txns link = elim link.prev.prev_txn [
  | none ↦ true
  | some id ↦ elim (lookup id txns) [ none ↦ false | some _ ↦ true ]
]

is_stale-leads :
    (ids : List ℕ) (txns : List (ℕ × Transaction)) (link : VersionUndoLink)
    → is_stale ids txns link ≡ false
    → leads txns link ≡ true
unfolding is_stale
is_stale-leads ids txns link h = ground arith

lookup-drop_stale :
    (ids : List ℕ) (txns : List (ℕ × Transaction)) (slots : List (ℕ × VersionUndoLink))
    (slot_no : ℕ) (link : VersionUndoLink)
    → lookup slot_no (drop_stale ids txns slots) ≡ some link
    → leads txns link ≡ true
unfolding drop_stale
lookup-drop_stale ids txns [] slot_no link h = absurd cc
lookup-drop_stale ids txns ((k, l) ∷ slots) slot_no link h =
    ground (arith, lookup-drop_stale ids txns slots slot_no link, is_stale-leads ids txns l)

lookup-clean_pages :
    (ids : List ℕ) (txns : List (ℕ × Transaction)) (pages : List (ℕ × List (ℕ × VersionUndoLink)))
    (page_no slot_no : ℕ) (link : VersionUndoLink)
    → lookup slot_no (slots_of (lookup page_no (clean_pages ids txns pages))) ≡ some link
    → leads txns link ≡ true
unfolding clean_pages
lookup-clean_pages ids txns [] page_no slot_no link h = absurd cc
lookup-clean_pages ids txns ((k, slots) ∷ pages) page_no slot_no link h = ground (
  arith,
  lookup-clean_pages ids txns pages page_no slot_no link,
  lookup-drop_stale ids txns slots slot_no link,
)

-- Every link of the manager leads to a transaction of its map.
abbrev pub AllLead : Manager → Type 0
AllLead m =
    (page_no slot_no : ℕ) (link : VersionUndoLink)
    → get_version_link m page_no slot_no ≡ some link
    → leads m.txn_map link ≡ true

module _ (m : Manager) (slots : List ℕ) (k : Keyed m.txn_map) (a : AllLead m) where
  abbrev pub limit : ℕ
  limit = global_min (get_watermark m.running_txns) slots

  abbrev pub deleted : List ℕ
  deleted = to_erase limit m.txn_map

  -- What is left of a transaction `t`.
  abbrev pub left_of : Transaction → Option Transaction
  left_of t =
      if get_watermark m.running_txns == 0 || is_needed (get_watermark m.running_txns) slots t
      then some t
      else none

  abbrev pub Collected : Manager → Type 0
  Collected m' =
      ((id : ℕ) (t : Transaction) → lookup id m.txn_map ≡ some t → lookup id m'.txn_map ≡ left_of t)
      × AllLead m'

  kept :
      (get_watermark m.running_txns == 0) ≡ false
      → (id : ℕ) (t : Transaction) → lookup id m.txn_map ≡ some t
      → lookup id (erase_each deleted m.txn_map) ≡ left_of t
  kept n id t e = ground (
    arith,
    n,
    e,
    lookup-erase_each deleted id m.txn_map,
    to_erase-listed limit id m.txn_map t k e,
    reaches-global_min t.commit_ts (get_watermark m.running_txns) slots,
  )

  -- The manager after both phases.
  abbrev swept : List ℕ → Manager
  swept ids = record m {
    txn_map = erase_each deleted m.txn_map;
    version_info = elim ids as (λ _. List (ℕ × List (ℕ × VersionUndoLink))) [
      | [] ↦ m.version_info
      | _ ∷ _ ↦ clean_pages deleted (erase_each deleted m.txn_map) m.version_info
    ];
  }

  collected :
      (get_watermark m.running_txns == 0) ≡ false
      → (ids : List ℕ) → ids ≡ deleted
      → Collected (swept ids)
  unfolding get_version_link erase_each
  collected n [] e = (
    kept n,
    λ page_no slot_no link h.
        subst (λ ids. leads (erase_each ids m.txn_map) link ≡ true) e (a page_no slot_no link h),
  )
  collected n (_ ∷ _) e = (
    kept n,
    λ page_no slot_no link h.
        lookup-clean_pages deleted (erase_each deleted m.txn_map) m.version_info page_no slot_no
          link h,
  )

  -- The garbage collection deletes nothing if the watermark is 0. Otherwise it deletes a transaction
  -- if and only if it has finished below the watermark and below the timestamp of every registered
  -- thread (and below INT64_MAX), and keeps every other as it is. Where each version link led to a
  -- transaction of the map before, each does afterwards.
  pub garbage_collection-Collected : Collected (garbage_collection m slots)
  unfolding garbage_collection
  garbage_collection-Collected = elim (Bool-cases (get_watermark m.running_txns == 0)) [
    | inl z ↦
        let same : garbage_collection m slots ≡ m = rw z refl in
        subst Collected (sym same) (λ id t e. ground (arith, e, z), a)
    | inr n ↦
        let same : garbage_collection m slots ≡ swept deleted = rw n refl in
        subst Collected (sym same) (collected n deleted refl)
  ]

  -- `commit` and `abort` set the state before the commit timestamp. If the garbage is collected in
  -- between, with a watermark that is not 0, the transaction is deleted, which the call still uses.
  pub half_finished-collected :
      (id : ℕ) (t : Transaction)
      → lookup id m.txn_map ≡ some t
      → is_finished t.state ≡ true
      → t.commit_ts ≡ none
      → get_watermark m.running_txns ≢ 0
      → lookup id (garbage_collection m slots).txn_map ≡ none
  unfolding garbage_collection
  half_finished-collected id t e f n h =
      ground
        (arith, lookup-erase_each deleted id m.txn_map, to_erase-listed limit id m.txn_map t k e, n)
