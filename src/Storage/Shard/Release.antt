-- ===== src/Storage/Shard/Release.antt =====
-- `unpin_page` of the shard.
use aidv.Prelude.{
  ℕ, ◌≡◌, ◌≢◌, inl, inr, Bool, true, false, none, some, arith, Option-cases, eq-or-ne,
}
use aidv.Replacer.Membership.{holds-unpin, unpin-IsValid}
use aidv.Storage.PageTable.{PageId, find}
use aidv.Storage.Disk.{FileSystem, read_page}
use aidv.Storage.Shard.{Pool, release, unpin_page}
use aidv.Storage.Shard.Invariant.{Inv}
use aidv.Storage.Shard.Loading.{contents}
use aidv.Storage.Shard.Fetch.{KeepsContents}

-- The caller says so if it has changed the page.
abbrev pub Honest : {fs : FileSystem} → Pool fs → PageId → Bool → Type 0
Honest {fs} w p is_dirty =
    (f : ℕ)
    → find p w.shard.page_table ≡ some f
    → is_dirty ≡ false
    → (w.shard.pages f).is_dirty ≡ false
    → read_page fs w.disk p ≡ some (w.shard.pages f).content

module _ {fs : FileSystem} (w : Pool fs) (v : Inv w) where
  release-Inv :
      (p : PageId) (f : ℕ) (is_dirty : Bool)
      → find p w.shard.page_table ≡ some f
      → (w.shard.pages f).pin_count ≢ 0
      → Honest w p is_dirty
      → Inv (release fs w f is_dirty)
  unfolding release
  release-Inv p f is_dirty e n h = record {
    replacer = ground (arith, unpin-IsValid w.shard.replacer v.replacer f, v.replacer);
    resident = λ q g k. ground (arith, v.resident q g k);
    named = λ q g k. ground (arith, v.named q g);
    evictable =
        λ g k. ground (arith, holds-unpin w.shard.replacer f g, v.evictable g, v.resident p f e);
    unpinned = λ g k l. ground (arith, holds-unpin w.shard.replacer f g, v.unpinned g);
    free = λ g k. ground (arith, v.free g k, v.resident p f e);
    idle = λ g k l. ground (arith, v.idle g k);
    unrepeated = v.unrepeated;
    clean = λ q g k l m. ground (arith, v.clean q g, h f e, v.resident p f e);
  }

  release_contents : (f : ℕ) (is_dirty : Bool) → KeepsContents w (release fs w f is_dirty)
  unfolding release contents
  release_contents f is_dirty q d c = ground arith

  unpin_absent :
      (p : PageId) (is_dirty : Bool)
      → find p w.shard.page_table ≡ none
      → unpin_page fs w p is_dirty ≡ (false, w)
  unfolding unpin_page
  unpin_absent p is_dirty e = ground (arith, e)

  unpin_unpinned :
      (f : ℕ) (p : PageId) (is_dirty : Bool)
      → find p w.shard.page_table ≡ some f
      → (w.shard.pages f).pin_count ≡ 0
      → unpin_page fs w p is_dirty ≡ (false, w)
  unfolding unpin_page
  unpin_unpinned f p is_dirty e z = ground (arith, e)

  unpin_pinned :
      (f : ℕ) (p : PageId) (is_dirty : Bool)
      → find p w.shard.page_table ≡ some f
      → (w.shard.pages f).pin_count ≢ 0
      → unpin_page fs w p is_dirty ≡ (true, release fs w f is_dirty)
  unfolding unpin_page
  unpin_pinned f p is_dirty e n = ground (arith, e)

  -- A caller that is honest about its writes keeps the invariant and every page's bytes, and is
  -- told whether the page was resident and pinned.
  pub unpin_page-Inv :
      (p : PageId) (is_dirty : Bool)
      → Honest w p is_dirty
      → Inv (unpin_page fs w p is_dirty).1
        × KeepsContents w (unpin_page fs w p is_dirty).1
        × (((unpin_page fs w p is_dirty).0 ≡ false)
            → (f : ℕ) → find p w.shard.page_table ≡ some f
            → (w.shard.pages f).pin_count ≡ 0)
  unpin_page-Inv p is_dirty h = elim (Option-cases (find p w.shard.page_table)) [
    | inl e ↦ rw (unpin_absent p is_dirty e) (v, λ q d c. c, λ _ f k. cc)
    | inr (f, e) ↦ elim (eq-or-ne (w.shard.pages f).pin_count 0) [
      | inl z ↦ rw (unpin_unpinned f p is_dirty e z) (v, λ q d c. c, λ _ g k. ground (arith, e))
      | inr n ↦
          rw (unpin_pinned f p is_dirty e n)
            (release-Inv p f is_dirty e n h, release_contents f is_dirty, λ k. cc)
    ]
  ]
