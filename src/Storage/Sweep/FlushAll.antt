-- ===== src/Storage/Sweep/FlushAll.antt =====
-- `flush_all_pages`: afterwards the disk holds every page of the file as a reader would see it.
use aidv.Prelude.{
  ℕ, ◌≡◌, refl, sym, ◌∙◌, subst, inl, inr, true, none, some, List, [], ◌∷◌, arith, ◌==◌,
  Option-cases, Bool-cases,
}
use aidv.Storage.PageTable.{PageId, page_eq, page_eq_iff, find}
use aidv.Storage.Disk.{FileSystem, DiskManager, read_page}
use aidv.Storage.Shard.{Pool, Outcome, returns, throws, internal_error, write_own, flush_frame}
use aidv.Storage.Shard.Invariant.{Inv}
use aidv.Storage.Shard.Loading.{contents}
use aidv.Storage.Shard.Fetch.{KeepsContents}
use aidv.Storage.Shard.Flush.{flushed}
use aidv.Storage.Sweep.{flush_entries, flush_all_pages}
use aidv.Storage.Sweep.Saved.{
  Saved, Further, Further-refl, Further-trans, contents-Saved, named-Saved, flushed-Further,
  flushed-Saved,
}

module _ {fs : FileSystem} (w : Pool fs) (v : Inv w) where
  frame_unnamed :
      (f : ℕ) → (w.shard.pages f).id ≡ none → flush_frame fs w f ≡ throws internal_error w
  unfolding flush_frame write_own
  frame_unnamed f n = simp (n, flush_frame, write_own)

  frame_fails :
      (f : ℕ)
      → write_own fs w.disk (w.shard.pages f) ≡ none
      → flush_frame fs w f ≡ throws internal_error w
  unfolding flush_frame
  frame_fails f k = simp (k, flush_frame)

  frame_done :
      (f : ℕ) (disk : DiskManager fs)
      → write_own fs w.disk (w.shard.pages f) ≡ some disk
      → flush_frame fs w f ≡ returns tt (flushed w v f disk)
  unfolding flush_frame flushed
  frame_done f disk k = simp (k, flush_frame)

-- What flushing a frame leads to.
abbrev FrameFlushed : {fs : FileSystem} → Pool fs → ℕ → Outcome fs (Unit {0}) → Type 0
FrameFlushed w f (returns _ w') =
    Further w w' × ((p : PageId) → (w.shard.pages f).id ≡ some p → Saved w' p)
FrameFlushed w f (throws e w') = (e ≡ internal_error) × (w' ≡ w)

flush_frame-FrameFlushed :
    {fs : FileSystem} (w : Pool fs) (f : ℕ) → Inv w → FrameFlushed w f (flush_frame fs w f)
flush_frame-FrameFlushed {fs} w f v = elim (Option-cases (w.shard.pages f).id) [
  | inl n ↦ rw (frame_unnamed w v f n) (refl, refl)
  | inr (p, n) ↦ elim (Option-cases (write_own fs w.disk (w.shard.pages f))) [
    | inl k ↦ rw (frame_fails w v f k) (refl, refl)
    | inr (disk, k) ↦ rw (frame_done w v f disk k) (
      flushed-Further w v f disk p (v.named p f n) k,
      λ q m.
          subst (Saved (flushed w v f disk)) (ground (arith, n, m))
            (flushed-Saved w v f disk p (v.named p f n) k),
    )
  ]
]

-- The entries of the file have been saved, or the disk refused one of them.
abbrev EntriesFlushed :
    {fs : FileSystem} → Pool fs → ℕ → List (PageId × ℕ) → Outcome fs (Unit {0}) → Type 0
EntriesFlushed w fd entries (returns _ w') =
    Further w w'
    × ((p : PageId) (f : ℕ)
        → find p entries ≡ some f
        → p.fd ≡ fd
        → (w.shard.pages f).id ≡ some p
        → Saved w' p)
EntriesFlushed w fd entries (throws e w') = (e ≡ internal_error) × Further w w'

module _ {fs : FileSystem} (fd : ℕ) (p : PageId) (f : ℕ) (entries : List (PageId × ℕ)) where
  after :
      (u w : Pool fs) (r : Outcome fs (Unit {0}))
      → Further u w
      → ((q : PageId) → q.fd ≡ fd → page_eq p q ≡ true → (u.shard.pages f).id ≡ some q → Saved w q)
      → EntriesFlushed w fd entries r
      → EntriesFlushed u fd ((p, f) ∷ entries) r
  after u w (throws e w') m here (i, l) = (i, Further-trans u w w' m l)
  after u w (returns _ w') m here (l, rest) = (
    Further-trans u w w' m l,
    λ q g e same i. elim (Bool-cases (page_eq p q)) [
      | inl y ↦ l.saved q (here q same y (ground (arith, e, y, i)))
      | inr n ↦ rest q g (ground (arith, e, n)) same (m.ids g ∙ i)
    ],
  )

module _ {fs : FileSystem} (w : Pool fs) (fd : ℕ) (p : PageId) (f : ℕ) (entries : List (PageId × ℕ))
    (later : (u : Pool fs) → Inv u → EntriesFlushed u fd entries (flush_entries fs u fd entries))
    (v : Inv w) where
  flushed_first :
      (r : Outcome fs (Unit {0}))
      → FrameFlushed w f r
      → EntriesFlushed w fd
          ((p, f) ∷ entries)
          (elim r [ throws e w' ↦ throws e w' | returns _ w' ↦ flush_entries fs w' fd entries ])
  flushed_first (throws e w') (i, same) = (i, subst (Further w) (sym same) (Further-refl w v))
  flushed_first (returns _ w') (m, s) =
      after fd p f entries w w' (flush_entries fs w' fd entries) m (λ q same y i. s q i)
        (later w' m.inv)

flush_entries-EntriesFlushed :
    {fs : FileSystem} (w : Pool fs) (fd : ℕ) (entries : List (PageId × ℕ))
    → Inv w
    → EntriesFlushed w fd entries (flush_entries fs w fd entries)
unfolding flush_entries
flush_entries-EntriesFlushed w fd [] v = (Further-refl w v, λ p f e. cc)
flush_entries-EntriesFlushed {fs} w fd ((p, f) ∷ entries) v = elim (Bool-cases (p.fd == fd)) [
  | inl y ↦ rw (y) (
      flushed_first w fd p f entries (λ u i. flush_entries-EntriesFlushed u fd entries i) v
        (flush_frame fs w f) (flush_frame-FrameFlushed w f v))
  | inr n ↦ rw (n) (
      after fd p f entries w w (flush_entries fs w fd entries) (Further-refl w v)
        (λ q same y i. ground (arith, page_eq_iff p q))
        (flush_entries-EntriesFlushed w fd entries v))
]

-- The file is on disk as a reader would see it.
abbrev pub AllFlushed : {fs : FileSystem} → Pool fs → ℕ → Outcome fs (Unit {0}) → Type 0
AllFlushed {fs} w fd (returns _ w') =
    Inv w'
    × KeepsContents w w'
    × ((p : PageId) → p.fd ≡ fd → contents w' p ≡ read_page fs w'.disk p)
AllFlushed w fd (throws e w') = (e ≡ internal_error) × Inv w' × KeepsContents w w'

all_flushed :
    {fs : FileSystem} (w : Pool fs) (fd : ℕ) (r : Outcome fs (Unit {0}))
    → Inv w
    → EntriesFlushed w fd w.shard.page_table r
    → AllFlushed w fd r
all_flushed w fd (throws e w') v (i, m) = (i, m.inv, m.keeps)
all_flushed w fd (returns _ w') v (m, s) = (
  m.inv,
  m.keeps,
  λ p same.
      contents-Saved w' p m.inv
        (named-Saved w' p (λ f i. let old = sym (m.ids f) ∙ i in s p f (v.named p f old) same old)),
)

-- `flush_all_pages` loses no bytes and keeps the invariant, also where it throws, which it does
-- only if the disk refuses a write. If it returns, every page of the file is on disk as a reader
-- would get it.
pub flush_all_pages-AllFlushed :
    {fs : FileSystem} (w : Pool fs) (fd : ℕ) → Inv w → AllFlushed w fd (flush_all_pages fs w fd)
unfolding flush_all_pages
flush_all_pages-AllFlushed {fs} w fd v =
    all_flushed w fd (flush_all_pages fs w fd) v
      (flush_entries-EntriesFlushed w fd w.shard.page_table v)
