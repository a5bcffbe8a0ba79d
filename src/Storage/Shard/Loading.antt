-- ===== src/Storage/Shard/Loading.antt =====
-- A frame that was taken gets a new page: what `fetch_page` and `new_page` of the shard share.
use aidv.Prelude.{
  ℕ, ◌≡◌, refl, ◌≢◌, ◌⊎◌, inl, inr, false, Option, none, some, List, arith, Option-cases,
  Bool-cases,
}
use aidv.Storage.PageTable.{PageId, page_eq, page_eq_iff, find, find-erase}
use aidv.Storage.Disk.{Data, FileSystem, DiskManager, read_page}
use aidv.Storage.Disk.Pages.{read-write, read-write_self}
use aidv.Storage.Shard.{Page, Pool, erase_id, write_back, write_own}

-- What a reader of the page would get: the frame's bytes if the page is resident, else the disk's.
unfoldable pub contents : {fs : FileSystem} → Pool fs → PageId → Option Data
contents {fs} w p = elim (find p w.shard.page_table) [
  | none ↦ read_page fs w.disk p
  | some f ↦ some (w.shard.pages f).content
]

-- Whether a frame holds the page.
pub names : (x : Option PageId) (q : PageId) → (x ≡ some q) ⊎ (x ≢ some q)
names none q = inr (λ e. cc)
names (some p) q = ground (arith, page_eq_iff p q, Bool-cases (page_eq p q))

pub find-erase_id :
    (old : Option PageId) (q : PageId) (m : List (PageId × ℕ))
    → old ≢ some q
    → find q (erase_id old m) ≡ find q m
find-erase_id none q m h = refl
find-erase_id (some p) q m h = ground (arith, find-erase p q m, page_eq_iff p q)

pub find-erase_id_self :
    (old : Option PageId) (q : PageId) (m : List (PageId × ℕ))
    → old ≡ some q
    → find q (erase_id old m) ≡ none
find-erase_id_self none q m h = absurd (cc)
find-erase_id_self (some p) q m h = ground (arith, find-erase p q m, page_eq_iff p q)

module _ (fs : FileSystem) (disk disk' : DiskManager fs) where
  pub read-write_back :
      (page : Page) (q : PageId) (e : Data)
      → write_back fs disk page ≡ some disk'
      → page.id ≢ some q
      → read_page fs disk q ≡ some e
      → read_page fs disk' q ≡ some e
  unfolding write_back write_own
  read-write_back page q e w ne r = elim (Option-cases page.id) [
    | inl n ↦ ground (arith, n)
    | inr (p, n) ↦ ground (arith, n, read-write fs disk disk' p q page.content e)
  ]

  pub read-write_back_self :
      (page : Page) (q : PageId)
      → write_back fs disk page ≡ some disk'
      → page.id ≡ some q
      → (page.is_dirty ≡ false → read_page fs disk q ≡ some page.content)
      → read_page fs disk' q ≡ some page.content
  unfolding write_back write_own
  read-write_back_self page q w i c = elim (Bool-cases page.is_dirty) [
    | inl d ↦ ground (arith, read-write_self fs disk disk' q page.content)
    | inr d ↦ ground (arith, c d)
  ]
