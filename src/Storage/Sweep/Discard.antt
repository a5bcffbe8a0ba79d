-- ===== src/Storage/Sweep/Discard.antt =====
-- `discard_pages`: what stays of a file in the shard.
use aidv.Prelude.{
  ℕ, ◌≡◌, ◌<◌, refl, ◌⊎◌, inl, inr, Bool, true, false, none, some, List, [], ◌∷◌, arith,
  Option-cases, Bool-cases, if◌then◌else◌, eq-or-ne, subst, sym,
}
use aidv.Storage.PageTable.{PageId, page_eq, page_eq_iff, find, find-erase}
use aidv.Storage.Disk.{FileSystem, DiskManager}
use aidv.Storage.Shard.{Pool, Outcome, returns, throws, write_back, drop_page, delete_page}
use aidv.Storage.Shard.Invariant.{Inv}
use aidv.Storage.Shard.Fetch.{KeepsContents}
use aidv.Storage.Shard.Delete.{
  Deleted, delete_page-Deleted, delete_absent, delete_pinned, delete_fails, delete_done,
}
use aidv.Storage.Sweep.{pages_of, delete_each, discard_pages}

-- The page is in no frame, or somebody has it pinned.
pub Left : {fs : FileSystem} → Pool fs → PageId → Type 0
Left w q =
    (find q w.shard.page_table ≡ none)
    ⊎ ((f : ℕ) × (find q w.shard.page_table ≡ some f) × (0 < (w.shard.pages f).pin_count))

-- What one `delete_page` leads to.
pub record Past {fs : FileSystem} (w w' : Pool fs) : Type 0 where
  pub inv : Inv w'
  pub keeps : KeepsContents w w'
  pub left : (q : PageId) → Left w q → Left w' q

abbrev PageDropped : {fs : FileSystem} → Pool fs → PageId → Outcome fs Bool → Type 0
PageDropped w p (returns _ w') = Past w w' × Left w' p
PageDropped w p (throws e w') = w' ≡ w

module _ {fs : FileSystem} (w : Pool fs) (v : Inv w) (p : PageId) where
  Past-refl : Past w w
  Past-refl = record { inv = v; keeps = λ q d c. c; left = λ q l. l }

  module _ (f : ℕ) (e : find p w.shard.page_table ≡ some f) (z : (w.shard.pages f).pin_count ≡ 0)
      (disk : DiskManager fs) (k : write_back fs w.disk (w.shard.pages f) ≡ some disk) where
    dropped-Left : (q : PageId) → Left w q → Left (drop_page fs w p f disk) q
    unfolding Left drop_page
    dropped-Left q (inl n) = inl (ground (arith, find-erase p q w.shard.page_table))
    dropped-Left q (inr (g, n, h)) = inr (
      g,
      ground (arith, find-erase p q w.shard.page_table, page_eq_iff p q),
      ground (arith, n, h, z, e),
    )

    dropped : PageDropped w p (returns true (drop_page fs w p f disk))
    unfolding Left
    dropped =
        let (i, c, absent) =
          subst (Deleted w p) (delete_done w v p f e disk z k) (delete_page-Deleted w v p) in
        (record { inv = i; keeps = c; left = dropped-Left }, inl absent)

  delete_page-PageDropped : PageDropped w p (delete_page fs w p)
  unfolding Left
  delete_page-PageDropped = elim (Option-cases (find p w.shard.page_table)) [
    | inl e ↦ rw (delete_absent w v p e) (Past-refl, inl e)
    | inr (f, e) ↦ elim (eq-or-ne (w.shard.pages f).pin_count 0) [
      | inr n ↦ rw (delete_pinned w v p f e (omega arith)) (Past-refl, inr (f, e, omega arith))
      | inl z ↦ elim (Option-cases (write_back fs w.disk (w.shard.pages f))) [
        | inl k ↦ rw (delete_fails w v p f e z k) refl
        | inr (disk, k) ↦ rw (delete_done w v p f e disk z k) (dropped f e z disk k)
      ]
    ]
  ]

abbrev pub named_in : PageId → List PageId → Bool
named_in q [] = false
named_in q (p ∷ ps) = if page_eq p q then true else named_in q ps

abbrev EachDropped : {fs : FileSystem} → Pool fs → List PageId → Outcome fs (Unit {0}) → Type 0
EachDropped w ps (returns _ w') = Past w w' × ((q : PageId) → named_in q ps ≡ true → Left w' q)
EachDropped w ps (throws e w') = Inv w' × KeepsContents w w'

module _ {fs : FileSystem} (w : Pool fs) (v : Inv w) (p : PageId) (ps : List PageId)
    (later : (u : Pool fs) → Inv u → EachDropped u ps (delete_each fs u ps)) where
  after :
      (u : Pool fs) (r : Outcome fs (Unit {0}))
      → Past w u
      → Left u p
      → EachDropped u ps r
      → EachDropped w (p ∷ ps) r
  after u (throws e w') m here (i, c) = (i, λ q d k. c q d (m.keeps q d k))
  after u (returns _ w') m here (l, rest) = (
    record {
      inv = l.inv;
      keeps = λ q d k. l.keeps q d (m.keeps q d k);
      left = λ q k. l.left q (m.left q k);
    },
    λ q h. elim (Bool-cases (page_eq p q)) [
      | inl y ↦ l.left q (subst (Left u) ((page_eq_iff p q).0 y) here)
      | inr n ↦ rest q (ground (arith, n))
    ],
  )

  dropped_first :
      (r : Outcome fs Bool)
      → PageDropped w p r
      → EachDropped w
          (p ∷ ps)
          (elim r [ throws e w' ↦ throws e w' | returns _ w' ↦ delete_each fs w' ps ])
  dropped_first (throws e w') same =
      subst (λ u. Inv u × KeepsContents w u) (sym same) (v, λ q d c. c)
  dropped_first (returns _ w') (m, l) = after w' (delete_each fs w' ps) m l (later w' m.inv)

delete_each-EachDropped :
    {fs : FileSystem} (w : Pool fs) (ps : List PageId)
    → Inv w
    → EachDropped w ps (delete_each fs w ps)
unfolding delete_each
delete_each-EachDropped w [] v =
    (record { inv = v; keeps = λ q d c. c; left = λ q l. l }, λ q h. cc)
delete_each-EachDropped {fs} w (p ∷ ps) v =
    dropped_first w v p ps (λ u i. delete_each-EachDropped u ps i) (delete_page fs w p)
      (delete_page-PageDropped w v p)

named_in-pages_of :
    (fd : ℕ) (entries : List (PageId × ℕ)) (q : PageId) (f : ℕ)
    → find q entries ≡ some f
    → q.fd ≡ fd
    → named_in q (pages_of fd entries) ≡ true
unfolding pages_of
named_in-pages_of fd [] q f e same = cc
named_in-pages_of fd ((p, g) ∷ entries) q f e same =
    ground (arith, named_in-pages_of fd entries q f, page_eq_iff p q)

-- Of the file, only pinned pages are still in frames.
abbrev pub Discarded : {fs : FileSystem} → Pool fs → ℕ → Outcome fs (Unit {0}) → Type 0
Discarded w fd (returns _ w') = Inv w' × KeepsContents w w' × ((p : PageId) → p.fd ≡ fd → Left w' p)
Discarded w fd (throws e w') = Inv w' × KeepsContents w w'

discarded :
    {fs : FileSystem} (w : Pool fs) (fd : ℕ) (r : Outcome fs (Unit {0}))
    → EachDropped w (pages_of fd w.shard.page_table) r
    → Discarded w fd r
unfolding Left
discarded w fd (throws e w') m = m
discarded w fd (returns _ w') (m, s) = (
  m.inv,
  m.keeps,
  λ p same. elim (Option-cases (find p w.shard.page_table)) [
    | inl e ↦ m.left p (inl e)
    | inr (f, e) ↦ s p (named_in-pages_of fd w.shard.page_table p f e same)
  ],
)

-- `discard_pages` keeps the invariant and the bytes of every page, also where it throws. If it
-- returns, each page of the file is in no frame or is still pinned by somebody.
pub discard_pages-Discarded :
    {fs : FileSystem} (w : Pool fs) (fd : ℕ) → Inv w → Discarded w fd (discard_pages fs w fd)
unfolding discard_pages
discard_pages-Discarded {fs} w fd v =
    discarded w fd (discard_pages fs w fd)
      (delete_each-EachDropped w (pages_of fd w.shard.page_table) v)
