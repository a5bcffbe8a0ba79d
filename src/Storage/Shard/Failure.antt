-- ===== src/Storage/Shard/Failure.antt =====
-- What `fetch_page` leaves behind when the read fails: the page table already names the frame.
use aidv.Prelude.{ℕ, ◌≡◌, none, some, arith}
use aidv.Storage.PageTable.{PageId, page_eq_refl, find, find-put}
use aidv.Storage.Disk.{blank, FileSystem, DiskManager, read_page}
use aidv.Storage.Shard.{
  Shard, Pool, returns, throws, internal_error, find_victim_page, write_back, read_in, hit,
  fetch_page, erase_id,
}
use aidv.Storage.Shard.Load.{updated}
use aidv.Storage.Shard.Paths.{fetch_hit, fetch_loaded}

module _ {fs : FileSystem} (w : Pool fs) (p : PageId) (absent : find p w.shard.page_table ≡ none)
    (s : Shard) (f : ℕ) (found : find_victim_page w.shard ≡ (s, some f))
    (unpinned : (s.pages f).pin_count ≡ 0) (disk : DiskManager fs)
    (written : write_back fs w.disk (s.pages f) ≡ some disk)
    (unread : read_page fs disk p ≡ none) where
  read_in_fails :
      read_in fs (updated w s f p disk) p f ≡ throws internal_error (updated w s f p disk)
  unfolding read_in
  read_in_fails = ground (arith, unread)

  hit-updated : ((hit fs (updated w s f p disk) f).shard.pages f).content ≡ blank
  unfolding hit
  hit-updated = ground arith

  -- If the page is not resident, a frame can be taken and its old page is safe, but the disk cannot
  -- read the page, `fetch_page` throws. The next `fetch_page` of the same page then returns the
  -- frame with a blank page, and does not ask the disk.
  pub fetch_after_failed_read :
      (fetch_page fs w p ≡ throws internal_error (updated w s f p disk))
      × (fetch_page fs (updated w s f p disk) p
          ≡ returns (some f) (hit fs (updated w s f p disk) f))
      × (((hit fs (updated w s f p disk) f).shard.pages f).content ≡ blank)
  fetch_after_failed_read = (
    rw (fetch_loaded w p s f unpinned absent found disk written) read_in_fails,
    fetch_hit (updated w s f p disk) p f
        (ground (arith, find-put p p f (erase_id (s.pages f).id s.page_table), page_eq_refl p)),
    hit-updated,
  )
