-- ===== src/Storage/Tests.antt =====
-- A file system in memory, a pool of one frame on it, and runs of the shard's methods.
mod Sweeps
use aidv.Prelude.{
  ℕ, ◌≡◌, refl, ◌≢◌, true, false, Option, none, some, List, [], ◌∷◌, arith, ◌==◌, if◌then◌else◌,
}
use aidv.Replacer
use aidv.Replacer.{LruReplacer}
use aidv.Storage.PageTable.{PageId, page_eq, page_eq_iff, find, put, find-put}
use aidv.Storage.Disk.{Data, blank, FileSystem, DiskManager, write_page, read_page}
use aidv.Storage.Shard.{
  Shard, Pool, returns, throws, internal_error, fetch_page, new_page, unpin_page, flush_page,
  delete_page, find_victim_page, init, write_back, write_own, hit,
}
use aidv.Storage.Shard.Invariant.{Inv}
use aidv.Storage.Shard.Fetch.{Fetched, KeepsContents, fetch_page-Fetched}
use aidv.Storage.Shard.NewPage.{Made, new_page-Made, init-Inv}
use aidv.Storage.Shard.Release.{Honest, unpin_page-Inv}
use aidv.Storage.Shard.Flush.{Flushed, flush_page-Flushed}
use aidv.Storage.Shard.Delete.{Deleted, delete_page-Deleted}
use aidv.Storage.Shard.Load.{updated}
use aidv.Storage.Shard.Failure.{fetch_after_failed_read}

pub memory_self :
    (s s' : List (PageId × Data)) (p : PageId) (d : Data)
    → ◌≡◌ {A = Option (List (PageId × Data))} (some (put p d s)) (some s')
    → find p s' ≡ some d
memory_self s s' p d e = ground (arith, find-put p p d s, page_eq_iff p p)

pub memory_ne :
    (s s' : List (PageId × Data)) (p q : PageId) (d e : Data)
    → ◌≡◌ {A = Option (List (PageId × Data))} (some (put p d s)) (some s')
    → p ≢ q
    → find q s ≡ some e
    → find q s' ≡ some e
memory_ne s s' p q d e k ne r = ground (arith, find-put p q d s, page_eq_iff p q)

abbrev pub memory : FileSystem
memory = record {
  State = List (PageId × Data);
  pread = λ s p. find p s;
  pwrite = λ s p d. some (put p d s);
  pread-pwrite_self = memory_self;
  pread-pwrite_ne = memory_ne;
}

abbrev pub page_one : PageId
page_one = record { fd = 3; page_no = 1 }

abbrev pub page_two : PageId
page_two = record { fd = 3; page_no = 2 }

abbrev pub on_disk : DiskManager memory
on_disk = record {
  files = (page_one, 10 ∷ []) ∷ (page_two, 20 ∷ []) ∷ [];
  fd2pageno = (3, 3) ∷ [];
  free_pages = [];
}

-- One frame, which holds a changed page that nobody uses.
abbrev pub changed : Pool memory
changed = record {
  shard = record {
    pool_size = 1;
    pages = λ g.
        if g == 0
        then record { id = some page_one; content = 11 ∷ []; is_dirty = true; pin_count = 0 }
        else record { id = none; content = []; is_dirty = false; pin_count = 1 };
    page_table = (page_one, 0) ∷ [];
    free_list = [];
    replacer = record {
      lru_list = record { id = 0; frame_id = 0 } ∷ [];
      lru_hash = (0, 0) ∷ [];
      max_size = 1;
      next_node = 1;
    };
  };
  disk = on_disk;
}

pub changed-Inv : Inv changed
changed-Inv = record {
  replacer = record { distinct = (omega arith, refl, tt); hashed = λ f. ground arith };
  resident = λ p f e. ground (arith, page_eq_iff page_one p);
  named = λ p f e. ground (arith, page_eq_iff page_one p);
  evictable = λ f h. ground arith;
  unpinned = λ f h k. ground arith;
  free = λ f h. cc;
  idle = λ f h k. ground arith;
  unrepeated = tt;
  clean = λ p f e z d. ground arith;
}

fetch_page-Fetched_example : Fetched changed page_two (fetch_page memory changed page_two)
fetch_page-Fetched_example = fetch_page-Fetched changed page_two changed-Inv

two_absent : find page_two changed.shard.page_table ≡ none
unfolding page_eq
two_absent = refl

new_page-Made_example : Made changed page_two (new_page memory changed page_two)
new_page-Made_example = new_page-Made changed changed-Inv page_two two_absent

pub unpinned-Honest : Honest changed page_one true
unpinned-Honest f e d = cc

delete_page-Deleted_example : Deleted changed page_one (delete_page memory changed page_one)
delete_page-Deleted_example = delete_page-Deleted changed changed-Inv page_one

-- The victim that the changed pool gives up, and the disk after its page was written.
abbrev taken : Shard
taken = (find_victim_page changed.shard).0

abbrev saved : DiskManager memory
saved = record on_disk { files = (page_one, 11 ∷ []) ∷ (page_two, 20 ∷ []) ∷ [] }

abbrev page_nine : PageId
page_nine = record { fd = 3; page_no = 9 }

changed-absent_nine : find page_nine changed.shard.page_table ≡ none
unfolding page_eq
changed-absent_nine = refl

victim_zero : find_victim_page changed.shard ≡ (taken, some 0)
unfolding find_victim_page Replacer.victim
victim_zero = refl

unpinned_zero : (taken.pages 0).pin_count ≡ 0
unfolding find_victim_page
unpinned_zero = refl

saved_written : write_back memory on_disk (taken.pages 0) ≡ some saved
unfolding find_victim_page Replacer.victim write_back write_own write_page page_eq
saved_written = refl

nine_unread : read_page memory saved page_nine ≡ none
unfolding read_page page_eq
nine_unread = refl

fetch_after_failed_read_example :
    (fetch_page memory changed page_nine
      ≡ throws internal_error (updated changed taken 0 page_nine saved))
    × (fetch_page memory (updated changed taken 0 page_nine saved) page_nine
        ≡ returns (some 0) (hit memory (updated changed taken 0 page_nine saved) 0))
    × (((hit memory (updated changed taken 0 page_nine saved) 0).shard.pages 0).content ≡ blank)
fetch_after_failed_read_example =
    fetch_after_failed_read changed page_nine changed-absent_nine taken 0 victim_zero unpinned_zero
      saved saved_written nine_unread
