-- ===== src/Storage/Manager/Calls.antt =====
-- The calls of the manager, with all shards in view.
use aidv.Prelude.{
  ℕ, ◌≡◌, refl, ◌⊎◌, ◌<◌, sym, subst, arith, ◌==◌, Bool, true, false, Option, none, some,
}
use aidv.Storage.PageTable.{PageId}
use aidv.Storage.Disk.{Data, FileSystem}
use aidv.Storage.Shard
use aidv.Storage.Shard.{Pool, Outcome, returns, throws, Error, internal_error}
use aidv.Storage.Shard.Invariant.{Inv}
use aidv.Storage.Shard.Victim.{AllPinned}
use aidv.Storage.Shard.Fetch.{Fetched, fetch_page-Fetched, Unwritten, Unread, KeepsContents}
use aidv.Storage.Shard.Flush.{Flushed, flush_page-Flushed}
use aidv.Storage.Shard.Delete.{Deleted, delete_page-Deleted}
use aidv.Storage.Shard.Release.{Honest, unpin_page-Inv}
use aidv.Storage.Manager.{
  Manager, Result, done, failed, shard_of, pool_at, with_pool, routed, fetch_page, unpin_page,
  flush_page, delete_page,
}
use aidv.Storage.Manager.Table.{
  Confined, Within, fetch_page-Confined, flush_page-Confined, unpin_page-Within,
  delete_page-Confined,
}
use aidv.Storage.Manager.Routing.{
  ManagerInv, ManagerKeeps, manager_contents, served-ManagerInv, served-ManagerKeeps,
}

-- The shard that owns the page has it in the frame, pinned, with its bytes.
abbrev pub ManagerFetched : {fs : FileSystem} → Manager fs → PageId → Result fs (Option ℕ) → Type 0
ManagerFetched m p (done none m') =
    AllPinned (m.shards (shard_of m p)) × ManagerInv m' × ManagerKeeps m m'
ManagerFetched m p (done (some f) m') =
    ManagerInv m'
    × ManagerKeeps m m'
    × (0 < ((m'.shards (shard_of m p)).pages f).pin_count)
    × ((d : Data)
        → manager_contents m p ≡ some d
        → ((m'.shards (shard_of m p)).pages f).content ≡ d)
ManagerFetched {fs} m p (failed e m') =
    (e ≡ internal_error)
    × (w : Pool fs) × (Unwritten (pool_at m (shard_of m p)) w
        ⊎ Unread (pool_at m (shard_of m p)) p w)
    × (m' ≡ with_pool m (shard_of m p) w)

module _ {fs : FileSystem} (m : Manager fs) (p : PageId) (v : ManagerInv m) where
  own_test : (shard_of m p == shard_of m p) ≡ true
  own_test = ground arith

  fetched :
      (r : Outcome fs (Option ℕ))
      → Fetched (pool_at m (shard_of m p)) p r
      → Confined (m.shards (shard_of m p)) p r
      → ManagerFetched m p (routed m (shard_of m p) r)
  unfolding routed
  fetched (returns none w) (pinned, same) c =
      let i = subst Inv (sym same) (v.each (shard_of m p)) in
      let k = subst (KeepsContents (pool_at m (shard_of m p))) (sym same) (λ q d e. e) in
      (pinned, served-ManagerInv m v p w i k c, served-ManagerKeeps m v p w i k c)
  fetched (returns (some f) w) (i, t, pins, value, k, _) c = (
    served-ManagerInv m v p w i k c,
    served-ManagerKeeps m v p w i k c,
    rw (own_test) pins,
    rw (own_test) value,
  )
  fetched (throws e w) (i, _, refused, _) c = (i, w, refused, refl)

  -- If all shards satisfy the invariant, hold only their own pages and share the disk, `fetch_page`
  -- of the manager keeps this and the bytes of every page of every shard. A frame that it returns is
  -- pinned and has the page's bytes. It returns null only if the page's shard has every frame
  -- pinned, and throws only if the disk refuses the shard's call, and leaves the state of that call.
  pub manager_fetch-ManagerFetched : ManagerFetched m p (fetch_page fs m p)
  unfolding fetch_page
  manager_fetch-ManagerFetched =
      fetched (Shard.fetch_page fs (pool_at m (shard_of m p)) p)
        (fetch_page-Fetched (pool_at m (shard_of m p)) p (v.each (shard_of m p)))
        (fetch_page-Confined (pool_at m (shard_of m p)) p)

  unchanged :
      (w : Pool fs)
      → w ≡ pool_at m (shard_of m p)
      → ManagerInv (with_pool m (shard_of m p) w) × ManagerKeeps m (with_pool m (shard_of m p) w)
  unchanged w same =
      let i = subst Inv (sym same) (v.each (shard_of m p)) in
      let k = subst (KeepsContents (pool_at m (shard_of m p))) (sym same) (λ q d e. e) in
      let c = subst (Within (m.shards (shard_of m p)) p) (sym same) (λ q ne e. e) in
      (served-ManagerInv m v p w i k c, served-ManagerKeeps m v p w i k c)

  -- All shards are well after the call, also if it threw.
  abbrev pub Settled : {A : Type 0} → Result fs A → Type 0
  Settled (done _ m') = ManagerInv m' × ManagerKeeps m m'
  Settled (failed _ m') = ManagerInv m' × ManagerKeeps m m'

  flushed :
      (r : Outcome fs Bool)
      → Flushed (pool_at m (shard_of m p)) p r
      → Confined (m.shards (shard_of m p)) p r
      → Settled (routed m (shard_of m p) r)
  unfolding routed
  flushed (returns true w) (i, k, _) c =
      (served-ManagerInv m v p w i k c, served-ManagerKeeps m v p w i k c)
  flushed (returns false w) (_, same) c = unchanged w same
  flushed (throws _ w) (same, _, _) c = unchanged w same

  deleted :
      (r : Outcome fs Bool)
      → Deleted (pool_at m (shard_of m p)) p r
      → Confined (m.shards (shard_of m p)) p r
      → Settled (routed m (shard_of m p) r)
  unfolding routed
  deleted (returns true w) (i, k, _) c =
      (served-ManagerInv m v p w i k c, served-ManagerKeeps m v p w i k c)
  deleted (returns false w) (same, _, _, _) c = unchanged w same
  deleted (throws _ w) (same, _, _) c = unchanged w same

  -- If all shards satisfy the invariant, hold only their own pages and share the disk, `flush_page`
  -- and `delete_page` of the manager keep this and the bytes of every page of every shard, whether
  -- they return or throw, and so does `unpin_page` of a caller that says truly whether it wrote.
  pub manager_calls-Settled :
      (is_dirty : Bool)
      → Honest (pool_at m (shard_of m p)) p is_dirty
      → Settled (flush_page fs m p)
        × Settled (delete_page fs m p)
        × ManagerInv (unpin_page fs m p is_dirty).1
        × ManagerKeeps m (unpin_page fs m p is_dirty).1
  unfolding flush_page delete_page unpin_page
  manager_calls-Settled is_dirty h =
      let at = pool_at m (shard_of m p) in
      let inv = v.each (shard_of m p) in
      let (i, k, _) = unpin_page-Inv at inv p is_dirty h in
      let c = unpin_page-Within at p is_dirty in
      (
        flushed (Shard.flush_page fs at p) (flush_page-Flushed at inv p) (flush_page-Confined at p),
        deleted (Shard.delete_page fs at p) (delete_page-Deleted at inv p)
            (delete_page-Confined at p),
        served-ManagerInv m v p (Shard.unpin_page fs at p is_dirty).1 i k c,
        served-ManagerKeeps m v p (Shard.unpin_page fs at p is_dirty).1 i k c,
      )
