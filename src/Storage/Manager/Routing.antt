-- ===== src/Storage/Manager/Routing.antt =====
-- A page is in the shard that owns its number and in no other, so the shards do not see one another.
use aidv.Prelude.{
  ℕ, ◌≡◌, refl, sym, ◌∙◌, ◌≢◌, inl, inr, Option, none, some, arith, Option-cases, ◌==◌, Bool-cases,
  ap, subst,
}
use aidv.Storage.PageTable.{PageId, find}
use aidv.Storage.Disk.{Data, FileSystem, read_page}
use aidv.Storage.Shard.{Pool}
use aidv.Storage.Shard.Invariant.{Inv}
use aidv.Storage.Shard.Loading.{contents}
use aidv.Storage.Shard.Fetch.{KeepsContents}
use aidv.Storage.Manager.{Manager, shard_of, pool_at, with_pool}
use aidv.Storage.Manager.Table.{Within}

-- Every shard satisfies its invariant on the shared disk, and holds only pages that are its own.
pub record ManagerInv {fs : FileSystem} (m : Manager fs) : Type 0 where
  pub each : (i : ℕ) → Inv (pool_at m i)
  pub owned : (i : ℕ) (p : PageId) → shard_of m p ≢ i → find p (m.shards i).page_table ≡ none

-- What a reader would get from the manager.
abbrev pub manager_contents : {fs : FileSystem} → Manager fs → PageId → Option Data
manager_contents m p = contents (pool_at m (shard_of m p)) p

abbrev pub ManagerKeeps : {fs : FileSystem} → Manager fs → Manager fs → Type 0
ManagerKeeps m m' =
    (q : PageId) (d : Data) → manager_contents m q ≡ some d → manager_contents m' q ≡ some d

contents-absent :
    {fs : FileSystem} (w : Pool fs) (q : PageId)
    → find q w.shard.page_table ≡ none
    → contents w q ≡ read_page fs w.disk q
unfolding contents
contents-absent w q e = ground (arith, e)

contents-resident :
    {fs : FileSystem} (w : Pool fs) (q : PageId) (f : ℕ)
    → find q w.shard.page_table ≡ some f
    → contents w q ≡ some (w.shard.pages f).content
unfolding contents
contents-resident w q f e = ground (arith, e)

module _ {fs : FileSystem} (m : Manager fs) (v : ManagerInv m) (p : PageId) (w : Pool fs)
    (inv : Inv w) (keeps : KeepsContents (pool_at m (shard_of m p)) w)
    (within : Within (m.shards (shard_of m p)) p w) where
  abbrev served : Manager fs
  served = with_pool m (shard_of m p) w

  absent_here : (q : PageId) → shard_of m q ≢ shard_of m p → find q w.shard.page_table ≡ none
  absent_here q ne = within q (λ e. ne (ap (shard_of m) (sym e))) (v.owned (shard_of m p) q ne)

  -- The shard wrote no page of another shard.
  disk_apart :
      (q : PageId) (d : Data)
      → shard_of m q ≢ shard_of m p
      → read_page fs m.disk q ≡ some d
      → read_page fs w.disk q ≡ some d
  disk_apart q d ne e =
      sym (contents-absent w q (absent_here q ne))
      ∙ keeps q d (contents-absent (pool_at m (shard_of m p)) q (v.owned (shard_of m p) q ne) ∙ e)

  other-Inv :
      (j : ℕ) → shard_of m p ≢ j → Inv {fs = fs} (record { shard = m.shards j; disk = w.disk })
  other-Inv j ne =
      let old = v.each j in
      record {
        replacer = old.replacer;
        resident = old.resident;
        named = old.named;
        evictable = old.evictable;
        unpinned = old.unpinned;
        free = old.free;
        idle = old.idle;
        unrepeated = old.unrepeated;
        clean = λ q f i z d.
            disk_apart q _ (λ e. ground (arith, e, old.named q f i, v.owned j q))
              (old.clean q f i z d);
      }

  same_shard : (q : PageId) → shard_of served q ≡ shard_of m q
  unfolding shard_of
  same_shard q = refl

  each_served : (j : ℕ) → Inv (pool_at served j)
  each_served j = elim (Bool-cases (shard_of m p == j)) [
    | inl y ↦ rw (y) inv
    | inr n ↦ rw (n) (other-Inv j (ground (arith, n)))
  ]

  owned_served :
      (j : ℕ) (q : PageId) → shard_of m q ≢ j → find q (served.shards j).page_table ≡ none
  owned_served j q ne = elim (Bool-cases (shard_of m p == j)) [
    | inl y ↦ rw (y) (absent_here q (ground (arith, y)))
    | inr n ↦ rw (n) (v.owned j q ne)
  ]

  pub served-ManagerInv : ManagerInv served
  served-ManagerInv = record {
    each = each_served;
    owned = λ j q ne. owned_served j q (λ e. ne (same_shard q ∙ e));
  }

  contents-served :
      (j : ℕ) (q : PageId) (d : Data)
      → shard_of m q ≡ j
      → contents (pool_at m j) q ≡ some d
      → contents (pool_at served j) q ≡ some d
  contents-served j q d at e = elim (Bool-cases (shard_of m p == j)) [
    | inl y ↦
        rw (y) (keeps q d (subst (λ i. contents (pool_at m i) q ≡ some d) (ground (arith, y)) e))
    | inr n ↦ rw (n) (elim (Option-cases (find q (m.shards j).page_table)) [
      | inl a ↦
          contents-absent (record { shard = m.shards j; disk = w.disk }) q a
          ∙ disk_apart q d (ground (arith, n)) (sym (contents-absent (pool_at m j) q a) ∙ e)
      | inr (f, b) ↦
          contents-resident (record { shard = m.shards j; disk = w.disk }) q f b
          ∙ sym (contents-resident (pool_at m j) q f b)
          ∙ e
    ])
  ]

  pub served-ManagerKeeps : ManagerKeeps m served
  unfolding shard_of
  served-ManagerKeeps q d e = contents-served (shard_of m q) q d refl e
