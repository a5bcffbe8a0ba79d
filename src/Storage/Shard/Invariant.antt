-- ===== src/Storage/Shard/Invariant.antt =====
-- The invariant of a shard: the page table, the frames, the free list and the replacer agree, and
-- a frame that can be evicted unwritten holds what the disk holds.
use aidv.Prelude.{
  ℕ, ◌<◌, ◌≡◌, ◌≢◌, ◌⊎◌, true, false, none, some, List, [], ◌∷◌, arith, ◌==◌, if◌then◌else◌,
}
use aidv.Replacer.Order.{elem}
use aidv.Replacer.Refinement
use aidv.Replacer.Membership.{holds}
use aidv.Storage.PageTable.{PageId, find}
use aidv.Storage.Disk.{FileSystem, read_page}
use aidv.Storage.Shard.{Shard, Pool}

-- No frame stands twice.
abbrev pub Unrepeated : List ℕ → Type 0
Unrepeated [] = Unit {0}
Unrepeated (x ∷ xs) = (elem x xs ≡ false) × Unrepeated xs

pub record Inv {fs : FileSystem} (w : Pool fs) : Type 0 where
  pub replacer : Refinement.IsValid w.shard.replacer
  pub resident :
      (p : PageId) (f : ℕ)
      → find p w.shard.page_table ≡ some f
      → ((w.shard.pages f).id ≡ some p) × (f < w.shard.pool_size)
  pub named :
      (p : PageId) (f : ℕ) → (w.shard.pages f).id ≡ some p → find p w.shard.page_table ≡ some f
  -- The replacer holds the unpinned pages, and these alone.
  pub evictable :
      (f : ℕ)
      → holds w.shard.replacer f ≡ true
      → ((w.shard.pages f).pin_count ≡ 0) × ((w.shard.pages f).id ≢ none)
  pub unpinned :
      (f : ℕ)
      → (w.shard.pages f).id ≢ none
      → (w.shard.pages f).pin_count ≡ 0
      → holds w.shard.replacer f ≡ true
  -- The free list holds the frames with no page, and these alone, each once.
  pub free :
      (f : ℕ)
      → elem f w.shard.free_list ≡ true
      → ((w.shard.pages f).id ≡ none)
        × ((w.shard.pages f).pin_count ≡ 0)
        × ((w.shard.pages f).is_dirty ≡ false)
        × (f < w.shard.pool_size)
  pub idle :
      (f : ℕ)
      → f < w.shard.pool_size
      → (w.shard.pages f).id ≡ none
      → elem f w.shard.free_list ≡ true
  pub unrepeated : Unrepeated w.shard.free_list
  pub clean :
      (p : PageId) (f : ℕ)
      → (w.shard.pages f).id ≡ some p
      → (w.shard.pages f).pin_count ≡ 0
      → (w.shard.pages f).is_dirty ≡ false
      → read_page fs w.disk p ≡ some (w.shard.pages f).content

-- What `find_victim_page` leaves when it takes a frame.
pub record Taken (s s' : Shard) (f : ℕ) : Type 0 where
  pub pages : s'.pages ≡ s.pages
  pub page_table : s'.page_table ≡ s.page_table
  pub pool_size : s'.pool_size ≡ s.pool_size
  pub from : (elem f s.free_list ≡ true) ⊎ (holds s.replacer f ≡ true)
  pub free_list : (g : ℕ) → elem g s'.free_list ≡ (if f == g then false else elem g s.free_list)
  pub held : (g : ℕ) → holds s'.replacer g ≡ (if f == g then false else holds s.replacer g)
  pub valid : Refinement.IsValid s'.replacer
  pub unrepeated : Unrepeated s'.free_list

module _ {fs : FileSystem} (w : Pool fs) (v : Inv w) where
  open w.shard use {free_list, pages, replacer}

  -- A frame is not free and evictable at once.
  pub not-both : (f : ℕ) → elem f free_list ≡ true → holds replacer f ≡ false
  not-both f h = ground (arith, v.free f, v.evictable f)
