-- ===== src/Storage/Shard.antt =====
-- rmdb/src/storage/buffer_pool_manager.{h,cpp}: `BufferPoolShard`. A method holds the shard's latch,
-- so it is one step. The disk manager, which the shards share, is passed along with the shard.
pub mod Invariant
pub mod Victim
pub mod Loading
pub mod Load
pub mod Paths
pub mod Fetch
pub mod Release
pub mod Flush
pub mod Delete
pub mod NewPage
pub mod Failure
use aidv.Prelude.{
  ℕ, zero, suc, ◌+◌, ◌-◌, ◌≡◌, Bool, true, false, Option, none, some, List, [], ◌∷◌, ◌++◌, ◌==◌,
  ltb, if◌then◌else◌, ◌&&◌,
}
use aidv.Replacer
use aidv.Replacer.{LruReplacer}
use aidv.Storage.PageTable.{PageId, find, put, erase}
use aidv.Storage.Disk.{Data, blank, FileSystem, DiskManager, write_page, read_page, deallocate_page}

-- `id = none` is the id with page number INVALID_PAGE_ID.
pub record Page : Type 0 where
  pub id : Option PageId
  pub content : Data
  pub is_dirty : Bool
  pub pin_count : ℕ

pub record Shard : Type 0 where
  pub pool_size : ℕ
  pub pages : ℕ → Page
  pub page_table : List (PageId × ℕ)
  pub free_list : List ℕ
  pub replacer : LruReplacer

pub data Error : Type 0 where
  internal_error assertion_failed : Error

abbrev pub set_page : (ℕ → Page) → ℕ → Page → ℕ → Page
set_page pages f p g = if f == g then p else pages g

abbrev pub fresh_page : Page
fresh_page = record { id = none; content = blank; is_dirty = false; pin_count = 0 }

-- The indices of `n` frames from the first.
pub frames_from : ℕ → ℕ → List ℕ
frames_from first zero = []
frames_from first (suc n) = first ∷ frames_from (suc first) n

unfoldable pub init : ℕ → Shard
init pool_size = record {
  pool_size = pool_size;
  pages = λ _. fresh_page;
  page_table = [];
  free_list = frames_from 0 pool_size;
  replacer = Replacer.init pool_size;
}

-- A shard with the disk manager that it points to.
pub record Pool (fs : FileSystem) : Type 0 where
  pub shard : Shard
  pub disk : DiskManager fs

-- A method returns, or throws and leaves what it has changed.
pub data Outcome (fs : FileSystem) (A : Type 0) : Type 0 where
  returns : A → Pool fs → Outcome fs A
  throws : Error → Pool fs → Outcome fs A

-- The frame that can take a new page.
unfoldable pub find_victim_page : Shard → Shard × Option ℕ
find_victim_page s = elim s.free_list [
  | f ∷ rest ↦ (record s { free_list = rest }, some f)
  | [] ↦ let (r, v) = Replacer.victim s.replacer in (record s { replacer = r }, v)
]

abbrev pub erase_id : Option PageId → List (PageId × ℕ) → List (PageId × ℕ)
erase_id none m = m
erase_id (some p) m = erase p m

module _ (fs : FileSystem) where
  -- `write_page` of a page's own id. A page without an id is at a negative offset, where it fails.
  unfoldable pub write_own : DiskManager fs → Page → Option (DiskManager fs)
  write_own disk page = elim page.id [ none ↦ none | some p ↦ write_page fs disk p page.content ]

  unfoldable pub write_back : DiskManager fs → Page → Option (DiskManager fs)
  write_back disk page = if page.is_dirty then write_own disk page else some disk

  -- The frame gives up its page, which is written first if it is dirty, and takes the new id.
  unfoldable pub update_page : Pool fs → PageId → ℕ → Outcome fs (Unit {0})
  update_page w new_page_id f =
      let page = w.shard.pages f in
      if page.pin_count == 0
      then elim (write_back w.disk page) [
        | none ↦ throws internal_error w
        | some disk ↦ returns tt (record {
          shard = record (w.shard) {
            pages =
                set_page w.shard.pages f
                  (record page { id = some new_page_id; content = blank; is_dirty = false });
            page_table = put new_page_id f (erase_id page.id w.shard.page_table);
          };
          disk = disk;
        })
      ]
      else throws assertion_failed w

  -- `page->pin_count_ = 1; replacer_.pin(frame_id)`, with the data given.
  unfoldable pub install : Pool fs → ℕ → Data → Pool fs
  install w f content = record w {
    shard = record (w.shard) {
      pages =
          set_page w.shard.pages f (record (w.shard.pages f) { content = content; pin_count = 1 });
      replacer = Replacer.pin w.shard.replacer f;
    };
  }

  -- The rest of `fetch_page` once the frame has the new id.
  unfoldable pub read_in : Pool fs → PageId → ℕ → Outcome fs (Option ℕ)
  read_in w page_id f = elim (read_page fs w.disk page_id) [
    | none ↦ throws internal_error w
    | some content ↦ returns (some f) (install w f content)
  ]

  unfoldable pub hit : Pool fs → ℕ → Pool fs
  hit w f =
      let page = w.shard.pages f in
      record w {
        shard = record (w.shard) {
          pages = set_page w.shard.pages f (record page { pin_count = page.pin_count + 1 });
          replacer = Replacer.pin w.shard.replacer f;
        };
      }

  -- `none` is the null pointer, and `some f` the page in frame `f`.
  unfoldable pub fetch_page : Pool fs → PageId → Outcome fs (Option ℕ)
  fetch_page w page_id = elim (find page_id w.shard.page_table) [
    | some f ↦ returns (some f) (hit w f)
    | none ↦
        let (s, v) = find_victim_page w.shard in
        elim v [
          | none ↦ returns none (record w { shard = s })
          | some f ↦ elim (update_page (record w { shard = s }) page_id f) [
            | throws e w' ↦ throws e w'
            | returns _ w' ↦ read_in w' page_id f
          ]
        ]
  ]

  unfoldable pub new_page : Pool fs → PageId → Outcome fs (Option ℕ)
  new_page w page_id =
      let (s, v) = find_victim_page w.shard in
      elim v [
        | none ↦ returns none (record w { shard = s })
        | some f ↦ elim (update_page (record w { shard = s }) page_id f) [
          | throws e w' ↦ throws e w'
          | returns _ w' ↦ returns (some f) (install w' f (w'.shard.pages f).content)
        ]
      ]

  unfoldable pub release : Pool fs → ℕ → Bool → Pool fs
  release w f is_dirty =
      let page = w.shard.pages f in
      let left = page.pin_count - 1 in
      record w {
        shard = record (w.shard) {
          pages = set_page w.shard.pages f (record page {
            pin_count = left;
            is_dirty = if is_dirty then true else page.is_dirty;
          });
          replacer = if left == 0 then Replacer.unpin w.shard.replacer f else w.shard.replacer;
        };
      }

  unfoldable pub unpin_page : Pool fs → PageId → Bool → Bool × Pool fs
  unpin_page w page_id is_dirty = elim (find page_id w.shard.page_table) [
    | none ↦ (false, w)
    | some f ↦ if (w.shard.pages f).pin_count == 0 then (false, w) else (true, release w f is_dirty)
  ]

  -- The page in the frame is written and is clean then.
  unfoldable pub flush_frame : Pool fs → ℕ → Outcome fs (Unit {0})
  flush_frame w f = elim (write_own w.disk (w.shard.pages f)) [
    | none ↦ throws internal_error w
    | some disk ↦ returns tt (record {
      shard = record (w.shard) {
        pages = set_page w.shard.pages f (record (w.shard.pages f) { is_dirty = false });
      };
      disk = disk;
    })
  ]

  unfoldable pub flush_page : Pool fs → PageId → Outcome fs Bool
  flush_page w page_id = elim (find page_id w.shard.page_table) [
    | none ↦ returns false w
    | some f ↦ elim (flush_frame w f) [ throws e w' ↦ throws e w' | returns _ w' ↦ returns true w' ]
  ]

  abbrev pub deallocate_own : DiskManager fs → Option PageId → DiskManager fs
  deallocate_own disk none = disk
  deallocate_own disk (some p) = deallocate_page fs disk p

  unfoldable pub drop_page : Pool fs → PageId → ℕ → DiskManager fs → Pool fs
  drop_page w page_id f disk = record {
    shard = record (w.shard) {
      pages = set_page w.shard.pages f fresh_page;
      page_table = erase page_id w.shard.page_table;
      free_list = w.shard.free_list ++ f ∷ [];
      replacer = Replacer.pin w.shard.replacer f;
    };
    disk = deallocate_own disk (w.shard.pages f).id;
  }

  unfoldable pub delete_page : Pool fs → PageId → Outcome fs Bool
  delete_page w page_id = elim (find page_id w.shard.page_table) [
    | none ↦ returns true w
    | some f ↦
        let page = w.shard.pages f in
        if ltb 0 page.pin_count then returns false w else elim (write_back w.disk page) [
          | none ↦ throws internal_error w
          | some disk ↦ returns true (drop_page w page_id f disk)
        ]
  ]
