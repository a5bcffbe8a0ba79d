-- ===== src/Storage/Tests/Sweeps.antt =====
-- Runs of the sweeps and of a manager with two shards.
use aidv.Prelude.{
  ℕ, refl, ◌<◌, ◌≤◌, true, Bool, arith, ◌==◌, length, if◌then◌else◌, Bool-cases, inl, inr,
}
use aidv.Storage.PageTable.{page_eq_iff}
use aidv.Storage.Disk.{next_page, free_list_of}
use aidv.Storage.Disk.Allocation.{InUse}
use aidv.Storage.Shard.{init}
use aidv.Storage.Shard.NewPage.{init-Inv}
use aidv.Storage.Shard.Release.{Honest}
use aidv.Storage.Sweep.{flush_dirty_pages}
use aidv.Storage.Sweep.FlushDirty.{DirtyFlushed, flush_dirty_pages-DirtyFlushed}
use aidv.Storage.Manager.{Manager, shard_of, pool_at, slices}
use aidv.Storage.Manager.Slices.{Partition, slices-Partition}
use aidv.Storage.Manager.Routing.{ManagerInv}
use aidv.Storage.Tests.{memory, page_one, on_disk, changed, changed-Inv}

flush_dirty_pages-DirtyFlushed_example : DirtyFlushed changed (flush_dirty_pages memory changed)
flush_dirty_pages-DirtyFlushed_example = flush_dirty_pages-DirtyFlushed changed changed-Inv

abbrev low : ℕ → Bool
low n = if n == 0 then true else if n == 1 then true else n == 2

low-InUse : InUse on_disk 3 low
unfolding next_page free_list_of
low-InUse = record {
  below = λ n h. ground arith;
  apart = λ n h. refl;
  free_below = λ n h. cc;
  once = tt;
}

slices-Partition_example :
    Partition 0 (slices 10) 0 10
    × (0 < length (slices 10))
    × (length (slices 10) ≤ 16)
    × (4 ≤ 10 → Partition 4 (slices 10) 0 10)
slices-Partition_example = slices-Partition 10

-- The pages with odd numbers are the changed pool's, those with even numbers the empty shard's.
abbrev two_shards : Manager memory
two_shards = record {
  shard_count = 2;
  shards = λ i. if i == 1 then changed.shard else init 1;
  disk = on_disk;
}

two_shards-ManagerInv : ManagerInv two_shards
unfolding shard_of init
two_shards-ManagerInv = record {
  each = λ i. elim (Bool-cases (i == 1)) [
    | inl y ↦ rw (y) changed-Inv
    | inr n ↦ rw (n) (init-Inv 1 on_disk)
  ];
  owned = λ i p ne. elim (Bool-cases (i == 1)) [
    | inl y ↦ rw (y) (ground (arith, page_eq_iff page_one p, y))
    | inr n ↦ rw (n) refl
  ];
}

says_so : Honest (pool_at two_shards (shard_of two_shards page_one)) page_one true
says_so f e d = cc
