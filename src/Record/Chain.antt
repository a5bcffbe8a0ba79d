-- ===== src/Record/Chain.antt =====
-- The chain of the pages that have room for a record.
use aidv.Prelude.{
  ℕ, suc, ◌<◌, ◌≡◌, ◌≢◌, refl, subst, true, false, Option, none, some, List, [], ◌∷◌, arith, ◌==◌,
  ltb, if◌then◌else◌, inl, inr, Bool-cases,
}
use aidv.Replacer.Order.{elem}
use aidv.Storage.Shard.Invariant.{Unrepeated}
use aidv.Record.{RmPage, RmFile, RmRecord, put_page, set_bit, fill_slot, create_new_page_handle}
use aidv.Record.Bits.{none_set, count_bits, count_bits-set}

-- The chain from a page number through the pages of the list.
abbrev pub Linked : (ℕ → RmPage) → Option ℕ → List ℕ → Type 0
Linked pages first [] = first ≡ none
Linked pages first (p ∷ ps) = (first ≡ some p) × Linked pages (pages p).next_free_page_no ps

pub put-Linked :
    (pages : ℕ → RmPage) (p : ℕ) (page : RmPage) (first : Option ℕ) (ps : List ℕ)
    → elem p ps ≡ false
    → Linked pages first ps
    → Linked (put_page pages p page) first ps
put-Linked pages p page first [] h l = l
put-Linked pages p page first (q ∷ ps) h l = elim (Bool-cases (p == q)) [
  | inl y ↦ ground (arith, y)
  | inr n ↦
      (l.0, rw (n) (put-Linked pages p page (pages q).next_free_page_no ps (ground arith) l.1))
]

pub push-Linked :
    (pages : ℕ → RmPage) (p : ℕ) (page : RmPage) (ps : List ℕ)
    → elem p ps ≡ false
    → Linked pages page.next_free_page_no ps
    → Linked (put_page pages p page) (some p) (p ∷ ps)
push-Linked pages p page ps h l =
    let self : (p == p) ≡ true = ground arith in
    (refl, rw (self) (put-Linked pages p page page.next_free_page_no ps h l))

-- The counters of the pages are right, and the chain holds the pages with room, and these alone,
-- each once. Page 0 has the file's header. `except` is a page that has been taken off the chain.
pub record Chained (file : RmFile) (free : List ℕ) (except : Option ℕ) : Type 0 where
  pub counted :
      (p : ℕ)
      → 0 < p
      → p < file.num_pages
      → (file.pages p).num_records ≡ count_bits (file.pages p).bitmap file.num_records_per_page
  pub linked : Linked file.pages file.first_free_page_no free
  pub roomy :
      (p : ℕ)
      → elem p free ≡ true
      → (0 < p) × (p < file.num_pages) × ((file.pages p).num_records < file.num_records_per_page)
  pub once : Unrepeated free
  pub listed :
      (p : ℕ)
      → 0 < p
      → p < file.num_pages
      → (file.pages p).num_records < file.num_records_per_page
      → except ≢ some p
      → elem p free ≡ true

-- A page off the chain that has room for the next record.
pub record Taken (file : RmFile) (p : ℕ) (free : List ℕ) : Type 0 where
  pub chained : Chained file free (some p)
  pub off : elem p free ≡ false
  pub positive : 0 < p
  pub known : p < file.num_pages
  pub has_room : (file.pages p).num_records < file.num_records_per_page

abbrev pub chain_after : RmFile → ℕ → List ℕ → List ℕ
chain_after file p free =
    if ltb (suc (file.pages p).num_records) file.num_records_per_page then p ∷ free else free

module _ (file : RmFile) (p : ℕ) (free : List ℕ) (t : Taken file p free) (slot_no : ℕ)
    (rec : RmRecord) (in_range : slot_no < file.num_records_per_page)
    (empty : (file.pages p).bitmap slot_no ≡ false) where
  abbrev bits_after : ℕ
  bits_after = count_bits (set_bit (file.pages p).bitmap slot_no true) file.num_records_per_page

  one_more : bits_after ≡ suc (file.pages p).num_records
  one_more = ground (
    arith,
    count_bits-set (file.pages p).bitmap slot_no file.num_records_per_page in_range empty,
    t.chained.counted p t.positive t.known,
  )

  pub fill_slot-Chained : Chained (fill_slot file p slot_no rec) (chain_after file p free) none
  unfolding fill_slot
  fill_slot-Chained =
      elim (Bool-cases (ltb (suc (file.pages p).num_records) file.num_records_per_page)) [
        | inl y ↦ rw (y) (record {
          counted = λ q a b. ground (arith, one_more, t.chained.counted q);
          linked = push-Linked file.pages p _ free t.off t.chained.linked;
          roomy = λ q h. ground (arith, t.chained.roomy q, t.positive, t.known, y);
          once = (t.off, t.chained.once);
          listed = λ q a b c n. ground (arith, t.chained.listed q);
        })
        | inr n ↦ rw (n) (record {
          counted = λ q a b. ground (arith, one_more, t.chained.counted q);
          linked = put-Linked file.pages p _ file.first_free_page_no free t.off t.chained.linked;
          roomy = λ q h. ground (arith, t.chained.roomy q, t.off);
          once = t.chained.once;
          listed = λ q a b c m. ground (arith, t.chained.listed q, n, t.has_room);
        })
      ]

-- The page that `create_page_handle` gives has room and is off the chain.
module _ (file : RmFile) (free : List ℕ) (v : Chained file free none)
    (has_slots : 0 < file.num_records_per_page) where
  pub recycled-Taken :
      (p : ℕ) (ps : List ℕ)
      → free ≡ p ∷ ps
      → Taken (record file { first_free_page_no = (file.pages p).next_free_page_no }) p ps
  recycled-Taken p ps e =
      let l = subst (Linked file.pages file.first_free_page_no) e v.linked in
      let u = subst Unrepeated e v.once in
      let r = v.roomy p (ground (arith, e)) in
      record {
        chained = record {
          counted = v.counted;
          linked = l.1;
          roomy = λ q h. v.roomy q (ground (arith, e));
          once = u.1;
          listed = λ q a b c n. ground (arith, v.listed q a b c, e);
        };
        off = u.0;
        positive = r.0;
        known = r.1;
        has_room = r.2;
      }

  pub new-Taken :
      (allocated : ℕ)
      → free ≡ []
      → allocated ≡ file.num_pages
      → 0 < file.num_pages
      → Taken (create_new_page_handle file allocated).1 allocated []
  unfolding create_new_page_handle
  new-Taken allocated e at h =
      let l = subst (Linked file.pages file.first_free_page_no) e v.linked in
      record {
        chained = record {
          counted = λ q a b. ground (arith, v.counted q a, at, none_set file.num_records_per_page);
          linked = l;
          roomy = λ q k. absurd cc;
          once = tt;
          listed = λ q a b c n. ground (arith, v.listed q a, e, at);
        };
        off = refl;
        positive = omega arith;
        known = omega arith;
        has_room = ground (arith, has_slots);
      }
