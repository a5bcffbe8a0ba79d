-- ===== src/Storage/Shard/Paths.antt =====
-- The paths through `fetch_page` and `new_page` of the shard, as equations.
use aidv.Prelude.{ℕ, ◌≡◌, none, some, arith}
use aidv.Storage.PageTable.{PageId, find}
use aidv.Storage.Disk.{FileSystem, DiskManager}
use aidv.Storage.Shard.{
  Shard, Pool, returns, throws, internal_error, find_victim_page, write_back, update_page, read_in,
  install, hit, fetch_page, new_page,
}
use aidv.Storage.Shard.Load.{updated}

module _ {fs : FileSystem} (w : Pool fs) (p : PageId) where
  pub fetch_hit :
      (f : ℕ)
      → find p w.shard.page_table ≡ some f
      → fetch_page fs w p ≡ returns (some f) (hit fs w f)
  unfolding fetch_page
  fetch_hit f e = simp (e, fetch_page)

  module _ (s : Shard) where
    pub fetch_full :
        find p w.shard.page_table ≡ none
        → find_victim_page w.shard ≡ (s, none)
        → fetch_page fs w p ≡ returns none (record w { shard = s })
    unfolding fetch_page
    fetch_full e k = simp (e, fetch_page, k)

    pub new_full :
        find_victim_page w.shard ≡ (s, none)
        → new_page fs w p ≡ returns none (record w { shard = s })
    unfolding new_page
    new_full k = simp (k, new_page)

    module _ (f : ℕ) (unpinned : (s.pages f).pin_count ≡ 0) where
      update_written :
          (disk : DiskManager fs)
          → write_back fs w.disk (s.pages f) ≡ some disk
          → update_page fs (record w { shard = s }) p f ≡ returns tt (updated w s f p disk)
      unfolding update_page
      update_written disk k = ground (arith, k)

      update_fails :
          write_back fs w.disk (s.pages f) ≡ none
          → update_page fs (record w { shard = s }) p f
            ≡ throws internal_error (record w { shard = s })
      unfolding update_page
      update_fails k = ground (arith, k)

      module _ (absent : find p w.shard.page_table ≡ none)
          (found : find_victim_page w.shard ≡ (s, some f)) where
        pub fetch_unwritten :
            write_back fs w.disk (s.pages f) ≡ none
            → fetch_page fs w p ≡ throws internal_error (record w { shard = s })
        unfolding fetch_page
        fetch_unwritten k = simp (absent, fetch_page, found, update_fails k)

        pub fetch_loaded :
            (disk : DiskManager fs)
            → write_back fs w.disk (s.pages f) ≡ some disk
            → fetch_page fs w p ≡ read_in fs (updated w s f p disk) p f
        unfolding fetch_page
        fetch_loaded disk k = simp (absent, fetch_page, found, update_written disk k)

      module _ (found : find_victim_page w.shard ≡ (s, some f)) where
        pub new_unwritten :
            write_back fs w.disk (s.pages f) ≡ none
            → new_page fs w p ≡ throws internal_error (record w { shard = s })
        unfolding new_page
        new_unwritten k = simp (found, new_page, update_fails k)

        pub new_loaded :
            (disk : DiskManager fs)
            → write_back fs w.disk (s.pages f) ≡ some disk
            → new_page fs w p
              ≡ returns (some f) (
                  install fs
                    (updated w s f p disk)
                    f
                    ((updated w s f p disk).shard.pages f).content)
        unfolding new_page
        new_loaded disk k = simp (found, new_page, update_written disk k)
