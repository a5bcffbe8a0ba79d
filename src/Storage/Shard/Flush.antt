-- ===== src/Storage/Shard/Flush.antt =====
-- `flush_page` of the shard.
use aidv.Prelude.{
  ℕ, ◌≡◌, refl, sym, ◌∙◌, ◌≢◌, inl, inr, Bool, true, false, none, some, arith, Option-cases,
  Bool-cases,
}
use aidv.Storage.PageTable.{PageId, page_eq, page_eq_iff, find}
use aidv.Storage.Disk.{Data, FileSystem, DiskManager, read_page, write_page}
use aidv.Storage.Disk.Pages.{read-write, read-write_self}
use aidv.Storage.Shard.{
  set_page, Pool, Outcome, returns, throws, internal_error, write_own, flush_frame, flush_page,
}
use aidv.Storage.Shard.Invariant.{Inv}
use aidv.Storage.Shard.Loading.{contents}
use aidv.Storage.Shard.Fetch.{KeepsContents}

-- The page is on disk as it stands in its frame, or the disk refused and nothing has changed.
abbrev pub Flushed : {fs : FileSystem} → Pool fs → PageId → Outcome fs Bool → Type 0
Flushed {fs} w p (returns true w') =
    Inv w' × KeepsContents w w' × (contents w p ≡ read_page fs w'.disk p)
Flushed w p (returns false w') = (find p w.shard.page_table ≡ none) × (w' ≡ w)
Flushed {fs} w p (throws e w') = (w' ≡ w) × (f : ℕ) × (write_own fs w.disk (w.shard.pages f) ≡ none)

module _ {fs : FileSystem} (w : Pool fs) (v : Inv w) where
  unfoldable pub flushed : ℕ → DiskManager fs → Pool fs
  flushed f disk = record {
    shard = record (w.shard) {
      pages = set_page w.shard.pages f (record (w.shard.pages f) { is_dirty = false });
    };
    disk = disk;
  }

  module _ (p : PageId) (f : ℕ) (e : find p w.shard.page_table ≡ some f) (disk : DiskManager fs)
      (written : write_own fs w.disk (w.shard.pages f) ≡ some disk) where
    own : write_page fs w.disk p (w.shard.pages f).content ≡ some disk
    unfolding write_own
    own = ground (arith, v.resident p f e)

    pub others :
        (q : PageId) (d : Data)
        → p ≢ q
        → read_page fs w.disk q ≡ some d
        → read_page fs disk q ≡ some d
    others q d = read-write fs w.disk disk p q (w.shard.pages f).content d own

    pub here : read_page fs disk p ≡ some (w.shard.pages f).content
    here = read-write_self fs w.disk disk p (w.shard.pages f).content own

    pub flushed-Inv : Inv (flushed f disk)
    unfolding flushed
    flushed-Inv = record {
      replacer = v.replacer;
      resident = λ q g k. ground (arith, v.resident q g k);
      named = λ q g k. ground (arith, v.named q g);
      evictable = λ g k. ground (arith, v.evictable g k);
      unpinned = λ g k l. ground (arith, v.unpinned g);
      free = λ g k. ground (arith, v.free g k);
      idle = λ g k l. ground (arith, v.idle g k);
      unrepeated = v.unrepeated;
      clean = λ q g k l m. ground (
        arith,
        v.clean q g,
        here,
        v.named q g,
        v.resident p f e,
        page_eq_iff p q,
        Bool-cases (page_eq p q),
        others q (w.shard.pages g).content,
      );
    }

    pub flushed_contents : KeepsContents w (flushed f disk)
    unfolding flushed contents
    flushed_contents q d c =
        ground (arith, e, others q d, page_eq_iff p q, Bool-cases (page_eq p q))

  pub flush_absent :
      (p : PageId) → find p w.shard.page_table ≡ none → flush_page fs w p ≡ returns false w
  unfolding flush_page
  flush_absent p e = simp (e, flush_page)

  pub flush_fails :
      (p : PageId) (f : ℕ)
      → find p w.shard.page_table ≡ some f
      → write_own fs w.disk (w.shard.pages f) ≡ none
      → flush_page fs w p ≡ throws internal_error w
  unfolding flush_page flush_frame
  flush_fails p f e k = simp (e, flush_page, k, flush_frame)

  pub flush_done :
      (p : PageId) (f : ℕ) (disk : DiskManager fs)
      → find p w.shard.page_table ≡ some f
      → write_own fs w.disk (w.shard.pages f) ≡ some disk
      → flush_page fs w p ≡ returns true (flushed f disk)
  unfolding flush_page flush_frame flushed
  flush_done p f disk e k = simp (e, flush_page, k, flush_frame)

  contents_here :
      (p : PageId) (f : ℕ)
      → find p w.shard.page_table ≡ some f
      → contents w p ≡ some (w.shard.pages f).content
  unfolding contents
  contents_here p f e = ground (arith, e)

  disk_flushed :
      (f : ℕ) (disk : DiskManager fs) (p : PageId)
      → read_page fs disk p ≡ read_page fs (flushed f disk).disk p
  unfolding flushed
  disk_flushed f disk p = refl

  -- `flush_page` writes a resident page as it stands in its frame and keeps every page's bytes. It
  -- returns false only if the page is not resident, and throws only if the disk refuses the write.
  -- In both cases nothing has changed.
  pub flush_page-Flushed : (p : PageId) → Flushed w p (flush_page fs w p)
  flush_page-Flushed p = elim (Option-cases (find p w.shard.page_table)) [
    | inl e ↦ rw (flush_absent p e) (e, refl)
    | inr (f, e) ↦ elim (Option-cases (write_own fs w.disk (w.shard.pages f))) [
      | inl k ↦ rw (flush_fails p f e k) (refl, f, k)
      | inr (disk, k) ↦ rw (flush_done p f disk e k) (
        flushed-Inv p f e disk k,
        flushed_contents p f e disk k,
        contents_here p f e ∙ sym (here p f e disk k) ∙ disk_flushed f disk p,
      )
    ]
  ]
