-- ===== src/Storage/Manager.antt =====
-- rmdb/src/storage/buffer_pool_manager.{h,cpp}: `BufferPoolManager`, which sends a page to the shard
-- that owns its number. The shards run in parallel in the program; a call is one step of one shard.
pub mod Slices
pub mod Table
pub mod Routing
pub mod Calls
use aidv.Prelude.{
  ℕ, zero, suc, ◌+◌, ◌%◌, ◌/◌, ◌≡◌, Bool, Option, List, [], ◌∷◌, ltb, ◌==◌, if◌then◌else◌,
}
use aidv.Storage.PageTable.{PageId}
use aidv.Storage.Disk.{FileSystem, DiskManager, allocate_page}
use aidv.Storage.Shard.{Shard, Pool, Outcome, returns, throws, Error}
use aidv.Storage.Shard

abbrev pub bpm_shard_count : ℕ
bpm_shard_count = 16

pub shard_cnt : ℕ → ℕ
shard_cnt pool_size =
    let wanted = if ltb bpm_shard_count (pool_size / 4) then bpm_shard_count else pool_size / 4 in
    if ltb wanted 1 then 1 else wanted

-- The offset and the size of each shard's slice of the frames, for `left` shards from the `i`-th.
pub slices_from : ℕ → ℕ → ℕ → ℕ → ℕ → List (ℕ × ℕ)
slices_from per_shard remainder i offset zero = []
slices_from per_shard remainder i offset (suc left) =
    let size = per_shard + (if ltb i remainder then 1 else 0) in
    (offset, size) ∷ slices_from per_shard remainder (suc i) (offset + size) left

pub slices : ℕ → List (ℕ × ℕ)
slices pool_size =
    slices_from (pool_size / shard_cnt pool_size) (pool_size % shard_cnt pool_size) 0 0
      (shard_cnt pool_size)

pub record Manager (fs : FileSystem) : Type 0 where
  pub shard_count : ℕ
  pub shards : ℕ → Shard
  pub disk : DiskManager fs

pub data Result (fs : FileSystem) (A : Type 0) : Type 0 where
  done : A → Manager fs → Result fs A
  failed : Error → Manager fs → Result fs A

module _ {fs : FileSystem} (m : Manager fs) where
  unfoldable pub shard_of : PageId → ℕ
  shard_of p = p.page_no % m.shard_count

  -- A shard with the disk manager that it points to.
  abbrev pub pool_at : ℕ → Pool fs
  pool_at i = record { shard = m.shards i; disk = m.disk }

  abbrev pub with_pool : ℕ → Pool fs → Manager fs
  with_pool i w = record m { shards = λ j. if i == j then w.shard else m.shards j; disk = w.disk }

  -- A call of the shard's method, with what the shard has changed put back.
  pub routed : {A : Type 0} → ℕ → Outcome fs A → Result fs A
  routed i (returns a w) = done a (with_pool i w)
  routed i (throws e w) = failed e (with_pool i w)

module _ (fs : FileSystem) where
  pub fetch_page : Manager fs → PageId → Result fs (Option ℕ)
  fetch_page m p = let i = shard_of m p in routed m i (Shard.fetch_page fs (pool_at m i) p)

  pub unpin_page : Manager fs → PageId → Bool → Bool × Manager fs
  unpin_page m p is_dirty =
      let i = shard_of m p in
      let (b, w) = Shard.unpin_page fs (pool_at m i) p is_dirty in (b, with_pool m i w)

  pub flush_page : Manager fs → PageId → Result fs Bool
  flush_page m p = let i = shard_of m p in routed m i (Shard.flush_page fs (pool_at m i) p)

  -- The new page's id is an output too.
  pub new_page : Manager fs → ℕ → PageId × Result fs (Option ℕ)
  new_page m fd =
      let (n, disk) = allocate_page fs m.disk fd in
      let p : PageId = record { fd = fd; page_no = n } in
      let m' : Manager fs = record m { disk = disk } in
      let i = shard_of m' p in (p, routed m' i (Shard.new_page fs (pool_at m' i) p))

  pub delete_page : Manager fs → PageId → Result fs Bool
  delete_page m p = let i = shard_of m p in routed m i (Shard.delete_page fs (pool_at m i) p)
