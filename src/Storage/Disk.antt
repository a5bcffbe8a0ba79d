-- ===== src/Storage/Disk.antt =====
-- rmdb/src/storage/disk_manager.{h,cpp}: whole pages of open files, and the allocation of page
-- numbers. The operating system is a parameter; what the program relies on is named below.
pub mod Pages
pub mod Allocation
use aidv.Prelude.{ℕ, suc, ◌+◌, ◌≡◌, ◌≢◌, Option, none, some, List, [], ◌∷◌, ◌++◌, replicate}
use aidv.Prelude.Assoc.{lookup, insert}
use aidv.Storage.PageTable.{PageId}

-- The bytes of a page.
abbrev pub Data : Type 0
Data = List ℕ

abbrev pub page_size : ℕ
page_size = 4096

-- `memset(data_, 0, PAGE_SIZE)`
pub blank : Data
blank = replicate page_size 0

-- `pread` and `pwrite` on whole pages. `none` stands for a result that is not the size asked for,
-- at which the disk manager throws.
pub record FileSystem : Type 1 where
  pub State : Type 0
  pub pread : State → PageId → Option Data
  pub pwrite : State → PageId → Data → Option State
  -- A page that was written is read back.
  pub pread-pwrite_self :
      (s s' : State) (p : PageId) (d : Data) → pwrite s p d ≡ some s' → pread s' p ≡ some d
  -- A write leaves the other pages of all files as they were.
  pub pread-pwrite_ne :
      (s s' : State) (p q : PageId) (d e : Data)
      → pwrite s p d ≡ some s'
      → p ≢ q
      → pread s q ≡ some e
      → pread s' q ≡ some e

pub record DiskManager (fs : FileSystem) : Type 0 where
  pub files : fs.State
  pub fd2pageno : List (ℕ × ℕ)
  pub free_pages : List (ℕ × List ℕ)

module _ (fs : FileSystem) where
  -- `none`: InternalError
  unfoldable pub write_page : DiskManager fs → PageId → Data → Option (DiskManager fs)
  write_page disk p d = elim (fs.pwrite disk.files p d) [
    | none ↦ none
    | some files ↦ some (record disk { files = files })
  ]

  unfoldable pub read_page : DiskManager fs → PageId → Option Data
  read_page disk p = fs.pread disk.files p

  -- The counter of a file that was never set is 0.
  unfoldable pub next_page : Option ℕ → ℕ
  next_page none = 0
  next_page (some n) = n

  -- The last page number on a free list, and what is left of the list.
  pub take_back : List ℕ → Option (ℕ × List ℕ)
  take_back [] = none
  take_back (p ∷ []) = some (p, [])
  take_back (p ∷ q ∷ ps) = elim (take_back (q ∷ ps)) [
    | none ↦ none
    | some (r, rest) ↦ some (r, p ∷ rest)
  ]

  pub recycled : Option (List ℕ) → Option (ℕ × List ℕ)
  recycled none = none
  recycled (some ps) = take_back ps

  pub allocate_page : DiskManager fs → ℕ → ℕ × DiskManager fs
  unfolding recycled take_back next_page
  allocate_page disk fd = elim (recycled (lookup fd disk.free_pages)) [
    | some (p, rest) ↦ (p, record disk { free_pages = insert fd rest disk.free_pages })
    | none ↦
        let n = next_page (lookup fd disk.fd2pageno) in
        (n, record disk { fd2pageno = insert fd (suc n) disk.fd2pageno })
  ]

  unfoldable pub free_list_of : Option (List ℕ) → List ℕ
  free_list_of none = []
  free_list_of (some ps) = ps

  pub deallocate_page : DiskManager fs → PageId → DiskManager fs
  unfolding free_list_of
  deallocate_page disk p = record disk {
    free_pages =
        insert p.fd (free_list_of (lookup p.fd disk.free_pages) ++ p.page_no ∷ []) disk.free_pages;
  }
