-- ===== src/Storage/Disk/Pages.antt =====
-- Whole pages of the disk manager: a page that was written is read back, and no other page changes.
use aidv.Prelude.{◌≡◌, refl, ◌≢◌, inl, inr, some, arith, Option-cases}
use aidv.Storage.PageTable.{PageId}
use aidv.Storage.Disk.{Data, FileSystem, DiskManager, write_page, read_page, deallocate_page}

module _ (fs : FileSystem) (disk disk' : DiskManager fs) where
  pub read-write :
      (p q : PageId) (d e : Data)
      → write_page fs disk p d ≡ some disk'
      → p ≢ q
      → read_page fs disk q ≡ some e
      → read_page fs disk' q ≡ some e
  unfolding write_page read_page
  read-write p q d e w ne r = elim (Option-cases (fs.pwrite disk.files p d)) [
    | inl n ↦ absurd (ground (arith, n))
    | inr (s, n) ↦ ground (arith, n, fs.pread-pwrite_ne disk.files s p q d e n ne r)
  ]

  pub read-write_self :
      (p : PageId) (d : Data) → write_page fs disk p d ≡ some disk' → read_page fs disk' p ≡ some d
  unfolding write_page read_page
  read-write_self p d w = elim (Option-cases (fs.pwrite disk.files p d)) [
    | inl n ↦ absurd (ground (arith, n))
    | inr (s, n) ↦ ground (arith, n, fs.pread-pwrite_self disk.files s p d n)
  ]

-- The allocation of page numbers leaves the pages as they are.
pub read-deallocate :
    (fs : FileSystem) (disk : DiskManager fs) (p q : PageId)
    → read_page fs (deallocate_page fs disk p) q ≡ read_page fs disk q
unfolding read_page deallocate_page
read-deallocate fs disk p q = refl
