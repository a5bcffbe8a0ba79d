-- ===== src/Storage/Sweep/FlushDirty.antt =====
-- `flush_dirty_pages`, the work of the background thread.
use aidv.Prelude.{
  ℕ, ◌≡◌, refl, sym, subst, inl, inr, Bool, true, false, none, some, List, [], ◌∷◌, arith,
  Option-cases, Bool-cases, if◌then◌else◌,
}
use aidv.Storage.PageTable.{PageId, page_eq, page_eq_iff, find}
use aidv.Storage.Disk.{FileSystem, read_page}
use aidv.Storage.Shard.{Page, Pool, Outcome, returns, throws, internal_error, write_own, flush_page}
use aidv.Storage.Shard.Invariant.{Inv}
use aidv.Storage.Shard.Loading.{contents}
use aidv.Storage.Shard.Fetch.{KeepsContents}
use aidv.Storage.Shard.Flush.{flush_absent, flush_fails, flush_done}
use aidv.Storage.Sweep.{dirty_among, collect_dirty_pages, flush_each, flush_dirty_pages}
use aidv.Storage.Sweep.Saved.{
  Saved, Further, Further-refl, Further-trans, contents-Saved, named-Saved, clean-Saved,
  flushed-Further, flushed-Saved,
}

abbrev pub listed : PageId → List PageId → Bool
listed q [] = false
listed q (p ∷ ps) = if page_eq p q then true else listed q ps

-- The page is in a frame, and the disk does not take it.
abbrev pub Refused : {fs : FileSystem} → Pool fs → PageId → Type 0
Refused {fs} w p =
    (f : ℕ) × (find p w.shard.page_table ≡ some f) × (write_own fs w.disk (w.shard.pages f) ≡ none)

-- What flushing one page leads to.
abbrev PageFlushed : {fs : FileSystem} → Pool fs → PageId → Outcome fs Bool → Type 0
PageFlushed w p (returns _ w') = Further w w' × Saved w' p
PageFlushed w p (throws e w') = (e ≡ internal_error) × (w' ≡ w) × Refused w p

flush_page-PageFlushed :
    {fs : FileSystem} (w : Pool fs) (p : PageId) → Inv w → PageFlushed w p (flush_page fs w p)
flush_page-PageFlushed {fs} w p v = elim (Option-cases (find p w.shard.page_table)) [
  | inl e ↦
      rw (flush_absent w v p e)
        (Further-refl w v, named-Saved w p (λ f i. ground (arith, e, v.named p f)))
  | inr (f, e) ↦ elim (Option-cases (write_own fs w.disk (w.shard.pages f))) [
    | inl k ↦ rw (flush_fails w v p f e k) (refl, refl, (f, e, k))
    | inr (disk, k) ↦
        rw (flush_done w v p f disk e k)
          (flushed-Further w v f disk p e k, flushed-Saved w v f disk p e k)
  ]
]

-- The listed pages have been saved, or the disk refused one of them.
abbrev EachFlushed : {fs : FileSystem} → Pool fs → List PageId → Outcome fs (Unit {0}) → Type 0
EachFlushed w ps (returns _ w') = Further w w' × ((q : PageId) → listed q ps ≡ true → Saved w' q)
EachFlushed w ps (throws e w') =
    (e ≡ internal_error) × Further w w' × (p : PageId) × (listed p ps ≡ true) × Refused w' p

module _ {fs : FileSystem} (w : Pool fs) (v : Inv w) (p : PageId) (ps : List PageId)
    (later : (u : Pool fs) → Inv u → EachFlushed u ps (flush_each fs u ps)) where
  after :
      (u : Pool fs) (r : Outcome fs (Unit {0}))
      → Further w u
      → Saved u p
      → EachFlushed u ps r
      → EachFlushed w (p ∷ ps) r
  after u (throws e w') m here (i, l, q, h, k) =
      (i, Further-trans w u w' m l, q, ground (arith, h), k)
  after u (returns _ w') m here (l, rest) = (
    Further-trans w u w' m l,
    λ q h. elim (Bool-cases (page_eq p q)) [
      | inl y ↦ l.saved q (subst (Saved u) ((page_eq_iff p q).0 y) here)
      | inr n ↦ rest q (ground (arith, n))
    ],
  )

  flushed_first :
      (r : Outcome fs Bool)
      → PageFlushed w p r
      → EachFlushed w
          (p ∷ ps)
          (elim r [ throws e w' ↦ throws e w' | returns _ w' ↦ flush_each fs w' ps ])
  flushed_first (throws e w') (i, same, refused) = (
    i,
    subst (Further w) (sym same) (Further-refl w v),
    p,
    ground (arith, page_eq_iff p p),
    subst (λ u. Refused u p) (sym same) refused,
  )
  flushed_first (returns _ w') (m, s) = after w' (flush_each fs w' ps) m s (later w' m.inv)

flush_each-EachFlushed :
    {fs : FileSystem} (w : Pool fs) (ps : List PageId)
    → Inv w
    → EachFlushed w ps (flush_each fs w ps)
unfolding flush_each
flush_each-EachFlushed w [] v = (Further-refl w v, λ q h. cc)
flush_each-EachFlushed {fs} w (p ∷ ps) v =
    flushed_first w v p ps (λ u i. flush_each-EachFlushed u ps i) (flush_page fs w p)
      (flush_page-PageFlushed w p v)

listed-dirty_among :
    (pages : ℕ → Page) (entries : List (PageId × ℕ)) (q : PageId) (f : ℕ)
    → find q entries ≡ some f
    → (pages f).is_dirty ≡ true
    → (pages f).pin_count ≡ 0
    → listed q (dirty_among pages entries) ≡ true
unfolding dirty_among
listed-dirty_among pages [] q f e d z = cc
listed-dirty_among pages ((p, g) ∷ entries) q f e d z =
    ground (arith, listed-dirty_among pages entries q f)

-- Every page that nobody had pinned is on disk as a reader would see it.
abbrev pub DirtyFlushed : {fs : FileSystem} → Pool fs → Outcome fs (Unit {0}) → Type 0
DirtyFlushed {fs} w (returns _ w') =
    Inv w'
    × KeepsContents w w'
    × ((p : PageId) (f : ℕ)
        → find p w.shard.page_table ≡ some f
        → (w.shard.pages f).pin_count ≡ 0
        → contents w' p ≡ read_page fs w'.disk p)
DirtyFlushed {fs} w (throws e w') =
    (e ≡ internal_error)
    × Inv w'
    × KeepsContents w w'
    × (p : PageId) × (listed p (collect_dirty_pages fs w) ≡ true)
    × Refused w' p

dirty_flushed :
    {fs : FileSystem} (w : Pool fs) (r : Outcome fs (Unit {0}))
    → Inv w
    → EachFlushed w (collect_dirty_pages fs w) r
    → DirtyFlushed w r
unfolding collect_dirty_pages
dirty_flushed w (throws e w') v (i, m, p, h, refused) = (i, m.inv, m.keeps, p, h, refused)
dirty_flushed w (returns _ w') v (m, s) = (
  m.inv,
  m.keeps,
  λ p f e z. contents-Saved w' p m.inv (elim (Bool-cases (w.shard.pages f).is_dirty) [
    | inl d ↦ s p (listed-dirty_among w.shard.pages w.shard.page_table p f e d z)
    | inr d ↦ m.saved p (clean-Saved w v p f e z d)
  ]),
)

-- `flush_dirty_pages` loses no bytes and keeps the invariant, also where it throws: then one
-- of the collected pages is in a frame of the shard as it is left, and the disk, as it is left,
-- refuses to take it. If it returns, every resident page that nobody had pinned is on
-- disk as a reader would get it.
pub flush_dirty_pages-DirtyFlushed :
    {fs : FileSystem} (w : Pool fs) → Inv w → DirtyFlushed w (flush_dirty_pages fs w)
unfolding flush_dirty_pages
flush_dirty_pages-DirtyFlushed {fs} w v =
    dirty_flushed w (flush_dirty_pages fs w) v
      (flush_each-EachFlushed w (collect_dirty_pages fs w) v)
