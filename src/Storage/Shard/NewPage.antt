-- ===== src/Storage/Shard/NewPage.antt =====
-- `new_page` of the shard, for a page number that was just allocated, and the shard at the start.
use aidv.Prelude.{
  ℕ, zero, suc, ◌<◌, ◌+◌, ◌≡◌, refl, ap, sym, ◌≢◌, inl, inr, Option, none, some, arith,
  Option-cases, ◌&&◌, ltb, leb,
}
use aidv.Replacer.Order.{elem}
use aidv.Replacer.Refinement.{init-IsValid}
use aidv.Replacer.Membership.{holds-init}
use aidv.Storage.PageTable.{PageId, find}
use aidv.Storage.Disk.{Data, blank, FileSystem, DiskManager}
use aidv.Storage.Shard.{
  Page, Shard, Pool, Outcome, returns, throws, internal_error, find_victim_page, write_back,
  new_page, init, frames_from,
}
use aidv.Storage.Shard.Invariant.{Inv, Taken, Unrepeated}
use aidv.Storage.Shard.Victim.{AllPinned, find_victim_page-Found}
use aidv.Storage.Shard.Loading.{contents}
use aidv.Storage.Shard.Load.{
  updated, taken-unpinned, loaded, loaded-Inv, loaded-here, loaded-pinned, frame_self,
  contents-loaded,
}
use aidv.Storage.Shard.Fetch.{KeepsPinned, Unwritten}
use aidv.Storage.Shard.Paths.{new_full, new_unwritten, new_loaded}

-- A new page is pinned and blank, and every other page's bytes and every pinned frame are kept.
abbrev pub Made : {fs : FileSystem} → Pool fs → PageId → Outcome fs (Option ℕ) → Type 0
Made w p (returns none w') = AllPinned w.shard × (w' ≡ w)
Made w p (returns (some f) w') =
    Inv w'
    × (find p w'.shard.page_table ≡ some f)
    × (0 < (w'.shard.pages f).pin_count)
    × ((w'.shard.pages f).content ≡ blank)
    × ((q : PageId) (d : Data) → p ≢ q → contents w q ≡ some d → contents w' q ≡ some d)
    × KeepsPinned w.shard w'.shard
Made w p (throws e w') = (e ≡ internal_error) × Unwritten w w' × KeepsPinned w.shard w'.shard

module _ {fs : FileSystem} (w : Pool fs) (v : Inv w) (p : PageId)
    (absent : find p w.shard.page_table ≡ none) where
  module _ (s : Shard) (f : ℕ) (t : Taken w.shard s f)
      (found : find_victim_page w.shard ≡ (s, some f)) where
    same : s.pages f ≡ w.shard.pages f
    same = ap (λ (h : ℕ → Page). h f) t.pages

    free : (s.pages f).pin_count ≡ 0
    free = rw same (taken-unpinned w v s f t)

    blank_here : (disk : DiskManager fs) → ((updated w s f p disk).shard.pages f).content ≡ blank
    blank_here disk = ground arith

    made :
        (disk : DiskManager fs) (written : write_back fs w.disk (w.shard.pages f) ≡ some disk)
        → Made w p (returns (some f) (loaded w v s f t p absent disk written blank))
    made disk written = (
      loaded-Inv w v s f t p absent disk written blank,
      (loaded-here w v s f t p absent disk written blank).0,
      (loaded-here w v s f t p absent disk written blank).1,
      ground (arith, frame_self w v s f t p absent disk written blank),
      λ q d ne c. contents-loaded w v s f t p absent disk written blank q d ne c,
      λ g k. rw (loaded-pinned w v s f t p absent disk written blank g k) (refl, refl, omega arith),
    )

    taken_new : Made w p (new_page fs w p)
    taken_new = elim (Option-cases (write_back fs w.disk (w.shard.pages f))) [
      | inl fails ↦ rw (new_unwritten w p s f free found (rw same fails)) (
        refl,
        (
          f,
          ap (λ x. x.1) found,
          fails,
          ap (λ (x : Shard × Option ℕ). record w { shard = x.0 }) (sym found),
        ),
        λ g k. rw t.pages (refl, refl, omega arith),
      )
      | inr (disk, written) ↦
          rw (new_loaded w p s f free found disk (rw same written), blank_here disk)
            (made disk written)
    ]

  -- `new_page` returns null only if every frame is pinned, and has changed nothing then. If it
  -- returns a frame, the frame is pinned and holds a blank page under the new number, the invariant
  -- holds, and the bytes of every other page and all pinned frames are kept. It throws only if the
  -- disk refuses to take the dirty page of the frame that `find_victim_page` chooses: only that
  -- choice is left behind then, and pinned frames are kept.
  pub new_page-Made : Made w p (new_page fs w p)
  new_page-Made = elim (find_victim_page-Found w v) [
    | inl (empty, unchanged, pinned) ↦
        rw
          (new_full w p (find_victim_page w.shard).0
            (ap (λ x. ((find_victim_page w.shard).0, x)) empty))
          (pinned, ap (λ (s : Shard). record w { shard = s }) unchanged)
    | inr (f, found, t) ↦
        taken_new (find_victim_page w.shard).0 f t
          (ap (λ x. ((find_victim_page w.shard).0, x)) found)
  ]

elem-frames_from : (first n g : ℕ) → elem g (frames_from first n) ≡ leb first g && ltb g (first + n)
unfolding frames_from
elem-frames_from first zero g = ground arith
elem-frames_from first (suc n) g = ground (arith, elem-frames_from (suc first) n g)

frames_from-Unrepeated : (first n : ℕ) → Unrepeated (frames_from first n)
unfolding frames_from
frames_from-Unrepeated first zero = tt
frames_from-Unrepeated first (suc n) =
    (ground (arith, elem-frames_from (suc first) n first), frames_from-Unrepeated (suc first) n)

-- A new shard of any size satisfies the invariant, whatever is on disk.
pub init-Inv :
    {fs : FileSystem} (n : ℕ) (disk : DiskManager fs)
    → Inv {fs = fs} (record { shard = init n; disk = disk })
unfolding init
init-Inv n disk = record {
  replacer = init-IsValid n;
  resident = λ p f e. cc;
  named = λ p f e. cc;
  evictable = λ f h. ground (arith, holds-init n f);
  unpinned = λ f h k. absurd (h refl);
  free = λ f h. ground (arith, elem-frames_from 0 n f);
  idle = λ f h k. ground (arith, elem-frames_from 0 n f);
  unrepeated = frames_from-Unrepeated 0 n;
  clean = λ p f e. cc;
}
