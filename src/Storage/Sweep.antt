-- ===== src/Storage/Sweep.antt =====
-- rmdb/src/storage/buffer_pool_manager.cpp: the methods of `BufferPoolShard` that go through the
-- page table. A std::unordered_map is gone through in an order of its own; here it is the list's.
pub mod Saved
pub mod FlushAll
pub mod FlushDirty
pub mod Discard
use aidv.Prelude.{ℕ, ◌≡◌, Bool, List, [], ◌∷◌, ◌==◌, if◌then◌else◌, ◌&&◌}
use aidv.Storage.PageTable.{PageId}
use aidv.Storage.Disk.{FileSystem}
use aidv.Storage.Shard.{Page, Pool, Outcome, returns, throws, flush_frame, flush_page, delete_page}

-- `to_delete` of `discard_pages`
pub pages_of : ℕ → List (PageId × ℕ) → List PageId
pages_of fd [] = []
pages_of fd ((p, _) ∷ entries) = if p.fd == fd then p ∷ pages_of fd entries else pages_of fd entries

-- The pages that `collect_dirty_pages` takes.
pub dirty_among : (ℕ → Page) → List (PageId × ℕ) → List PageId
dirty_among pages [] = []
dirty_among pages ((p, f) ∷ entries) =
    if (pages f).is_dirty && (pages f).pin_count == 0
    then p ∷ dirty_among pages entries
    else dirty_among pages entries

module _ (fs : FileSystem) where
  -- The loop of `flush_all_pages`.
  pub flush_entries : Pool fs → ℕ → List (PageId × ℕ) → Outcome fs (Unit {0})
  flush_entries w fd [] = returns tt w
  flush_entries w fd ((p, f) ∷ entries) =
      if p.fd == fd
      then elim (flush_frame fs w f) [
        | throws e w' ↦ throws e w'
        | returns _ w' ↦ flush_entries w' fd entries
      ]
      else flush_entries w fd entries

  pub flush_all_pages : Pool fs → ℕ → Outcome fs (Unit {0})
  flush_all_pages w fd = flush_entries w fd w.shard.page_table

  pub delete_each : Pool fs → List PageId → Outcome fs (Unit {0})
  delete_each w [] = returns tt w
  delete_each w (p ∷ ps) = elim (delete_page fs w p) [
    | throws e w' ↦ throws e w'
    | returns _ w' ↦ delete_each w' ps
  ]

  pub discard_pages : Pool fs → ℕ → Outcome fs (Unit {0})
  discard_pages w fd = delete_each w (pages_of fd w.shard.page_table)

  pub collect_dirty_pages : Pool fs → List PageId
  collect_dirty_pages w = dirty_among w.shard.pages w.shard.page_table

  pub flush_each : Pool fs → List PageId → Outcome fs (Unit {0})
  flush_each w [] = returns tt w
  flush_each w (p ∷ ps) = elim (flush_page fs w p) [
    | throws e w' ↦ throws e w'
    | returns _ w' ↦ flush_each w' ps
  ]

  -- The source lets the latch go after the collection and after each flush. This is the run in which
  -- no other thread takes it in between.
  pub flush_dirty_pages : Pool fs → Outcome fs (Unit {0})
  flush_dirty_pages w = flush_each w (collect_dirty_pages w)
