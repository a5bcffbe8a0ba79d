-- ===== src/Storage/Shard/Fetch.antt =====
-- `fetch_page` and `new_page` of the shard: what they return, and what they keep.
use aidv.Prelude.{
  ℕ, ◌<◌, ◌≤◌, ◌≡◌, refl, ap, ◌∙◌, ◌⊎◌, inl, inr, Option, none, some, arith, Option-cases,
  Bool-cases, subst, sym,
}
use aidv.Replacer.Membership.{holds-pin, pin-IsValid}
use aidv.Storage.PageTable.{PageId, page_eq, page_eq_iff, find}
use aidv.Storage.Disk.{Data, FileSystem, DiskManager, read_page}
use aidv.Storage.Shard.{
  Page, Shard, Pool, Outcome, returns, throws, internal_error, find_victim_page, write_back,
  read_in, hit, fetch_page,
}
use aidv.Storage.Shard.Invariant.{Inv, Taken}
use aidv.Storage.Shard.Victim.{AllPinned, find_victim_page-Found}
use aidv.Storage.Shard.Loading.{contents}
use aidv.Storage.Shard.Load.{
  updated, taken-unpinned, loaded, loaded-Inv, loaded-here, loaded-pinned, frame_self,
  contents-loaded, contents-read, contents-loaded_self,
}
use aidv.Storage.Shard.Paths.{fetch_hit, fetch_full, fetch_unwritten, fetch_loaded}

-- A pinned frame keeps its page and its bytes, and no pin is lost.
abbrev pub KeepsPinned : Shard → Shard → Type 0
KeepsPinned s s' =
    (g : ℕ)
    → 0 < (s.pages g).pin_count
    → ((s'.pages g).id ≡ (s.pages g).id)
      × ((s'.pages g).content ≡ (s.pages g).content)
      × ((s.pages g).pin_count ≤ (s'.pages g).pin_count)

-- The bytes of every page, in its frame or on disk, are those of before.
abbrev pub KeepsContents : {fs : FileSystem} → Pool fs → Pool fs → Type 0
KeepsContents w w' = (q : PageId) (d : Data) → contents w q ≡ some d → contents w' q ≡ some d

-- The disk did not take the page of the frame that was chosen: only the choice has been made.
abbrev pub Unwritten : {fs : FileSystem} → Pool fs → Pool fs → Type 0
Unwritten {fs} w w' =
    (f : ℕ) × ((find_victim_page w.shard).1 ≡ some f)
    × (write_back fs w.disk (w.shard.pages f) ≡ none)
    × (w' ≡ record w { shard = (find_victim_page w.shard).0 })

-- The disk did not give the page: the frame that was chosen has its id, and nobody has it pinned.
abbrev pub Unread : {fs : FileSystem} → Pool fs → PageId → Pool fs → Type 0
Unread {fs} w p w' =
    (f : ℕ) × ((find_victim_page w.shard).1 ≡ some f)
    × (disk : DiskManager fs) × (write_back fs w.disk (w.shard.pages f) ≡ some disk)
    × (read_page fs disk p ≡ none)
    × (w' ≡ updated w (find_victim_page w.shard).0 f p disk)

module _ {fs : FileSystem} (w : Pool fs) (v : Inv w) where
  hit-Inv : (p : PageId) (f : ℕ) → find p w.shard.page_table ≡ some f → Inv (hit fs w f)
  unfolding hit
  hit-Inv p f e = record {
    replacer = pin-IsValid w.shard.replacer v.replacer f;
    resident = λ q g h. ground (arith, v.resident q g h);
    named = λ q g h. ground (arith, v.named q g);
    evictable = λ g h. ground (arith, holds-pin w.shard.replacer f g, v.evictable g);
    unpinned = λ g h k. ground (arith, holds-pin w.shard.replacer f g, v.unpinned g);
    free = λ g h. ground (arith, v.free g h, v.resident p f e);
    idle = λ g h k. ground (arith, v.idle g h);
    unrepeated = v.unrepeated;
    clean = λ q g h k l. ground (arith, v.clean q g);
  }

  hit_contents : (f : ℕ) → KeepsContents w (hit fs w f)
  unfolding hit contents
  hit_contents f q d c = ground arith

  hit_pinned : (f : ℕ) → KeepsPinned w.shard (hit fs w f).shard
  unfolding hit
  hit_pinned f g h = ground arith

  hit_pins : (f : ℕ) → 0 < ((hit fs w f).shard.pages f).pin_count
  unfolding hit
  hit_pins f = ground arith

  hit_table :
      (p : PageId) (f : ℕ)
      → find p w.shard.page_table ≡ some f
      → (find p (hit fs w f).shard.page_table ≡ some f)
        × ((d : Data) → contents w p ≡ some d → ((hit fs w f).shard.pages f).content ≡ d)
  unfolding hit contents
  hit_table p f e = (e, λ d c. ground (arith, e))

-- What `fetch_page` may do. It returns null only if every frame is pinned, and has changed nothing
-- then. If it returns a frame, the frame is pinned and holds the page's bytes, the invariant holds,
-- and all bytes and all pinned frames are kept. If it throws, the page was in no frame and the disk
-- refused, and the state is the one that the refused call was made in; pinned frames are kept.
abbrev pub Fetched : {fs : FileSystem} → Pool fs → PageId → Outcome fs (Option ℕ) → Type 0
Fetched w p (returns none w') = AllPinned w.shard × (w' ≡ w)
Fetched w p (returns (some f) w') =
    Inv w'
    × (find p w'.shard.page_table ≡ some f)
    × (0 < (w'.shard.pages f).pin_count)
    × ((d : Data) → contents w p ≡ some d → (w'.shard.pages f).content ≡ d)
    × KeepsContents w w'
    × KeepsPinned w.shard w'.shard
Fetched w p (throws e w') =
    (e ≡ internal_error)
    × (find p w.shard.page_table ≡ none)
    × (Unwritten w w' ⊎ Unread w p w')
    × KeepsPinned w.shard w'.shard

module _ {fs : FileSystem} (w : Pool fs) (v : Inv w) (p : PageId)
    (absent : find p w.shard.page_table ≡ none) where
  module _ (s : Shard) (f : ℕ) (t : Taken w.shard s f)
      (found : find_victim_page w.shard ≡ (s, some f)) where
    same : s.pages f ≡ w.shard.pages f
    same = ap (λ (h : ℕ → Page). h f) t.pages

    free : (s.pages f).pin_count ≡ 0
    free = rw same (taken-unpinned w v s f t)

    chosen : (find_victim_page w.shard).1 ≡ some f
    chosen = ap (λ x. x.1) found

    left_over : (h : Shard → Pool fs) → h s ≡ h (find_victim_page w.shard).0
    left_over h = ap (λ (x : Shard × Option ℕ). h x.0) (sym found)

    unwritten_pinned : KeepsPinned w.shard s
    unwritten_pinned g h = rw t.pages (refl, refl, omega arith)

    unread_pinned : (disk : DiskManager fs) → KeepsPinned w.shard (updated w s f p disk).shard
    unread_pinned disk g h = ground (arith, same, free, t.pages)

    read_keeps :
        (disk : DiskManager fs) (written : write_back fs w.disk (w.shard.pages f) ≡ some disk)
        (c : Data)
        → ((d : Data) → contents w p ≡ some d → c ≡ d)
        → KeepsContents w (loaded w v s f t p absent disk written c)
    read_keeps disk written c value q d k = elim (Bool-cases (page_eq p q)) [
      | inl e ↦
          let same_page : p ≡ q = (page_eq_iff p q).0 e in
          subst (λ (x : PageId). contents (loaded w v s f t p absent disk written c) x ≡ some d)
            same_page
            (contents-loaded_self w v s f t p absent disk written c
              ∙ ap some (value d (rw same_page k)))
      | inr e ↦
          contents-loaded w v s f t p absent disk written c q d
            (λ (h : p ≡ q). ground (arith, page_eq_iff p q)) k
    ]

    read_miss :
        (disk : DiskManager fs)
        → write_back fs w.disk (w.shard.pages f) ≡ some disk
        → Fetched w p (read_in fs (updated w s f p disk) p f)
    unfolding read_in
    read_miss disk written = elim (Option-cases (read_page fs disk p)) [
      | inl none_read ↦
          rw (none_read, read_in)
            (
              refl,
              absent,
              inr (
                f,
                chosen,
                disk,
                written,
                none_read,
                left_over (λ (x : Shard). updated w x f p disk),
              ),
              unread_pinned disk,
            )
      | inr (c, r) ↦
          let value : (d : Data) → contents w p ≡ some d → c ≡ d =
            λ d k. ground (arith, contents-read w v s f t p absent disk written c d k) in
          rw (r, read_in)
            (
              loaded-Inv w v s f t p absent disk written c,
              (loaded-here w v s f t p absent disk written c).0,
              (loaded-here w v s f t p absent disk written c).1,
              λ d k. ground (arith, frame_self w v s f t p absent disk written c, value d k),
              λ q d k. read_keeps disk written c value q d k,
              (λ g k.
                  rw (loaded-pinned w v s f t p absent disk written c g k)
                    (refl, refl, omega arith)),
            )
    ]

    taken_miss : Fetched w p (fetch_page fs w p)
    taken_miss = elim (Option-cases (write_back fs w.disk (w.shard.pages f))) [
      | inl fails ↦ rw (fetch_unwritten w p s f free absent found (rw same fails)) (
        refl,
        absent,
        inl (f, chosen, fails, left_over (λ (x : Shard). record w { shard = x })),
        unwritten_pinned,
      )
      | inr (disk, written) ↦
          rw (fetch_loaded w p s f free absent found disk (rw same written))
            (read_miss disk written)
    ]

  fetch_miss : Fetched w p (fetch_page fs w p)
  fetch_miss = elim (find_victim_page-Found w v) [
    | inl (empty, unchanged, pinned) ↦
        rw
          (fetch_full w p (find_victim_page w.shard).0 absent
            (ap (λ x. ((find_victim_page w.shard).0, x)) empty))
          (pinned, ap (λ (s : Shard). record w { shard = s }) unchanged)
    | inr (f, found, t) ↦
        taken_miss (find_victim_page w.shard).0 f t
          (ap (λ x. ((find_victim_page w.shard).0, x)) found)
  ]

-- From a shard in which the invariant holds, `fetch_page` returns null only if every frame is
-- pinned, and has changed nothing then. If it returns a frame, the frame is pinned and holds the
-- page's bytes, the invariant holds, and the bytes of all pages and all pinned frames are kept. It
-- throws only if the page is in no frame and the disk refuses to take the dirty page of the frame
-- that `find_victim_page` chooses, where only that choice is left behind, or to give the page asked
-- for, where the frame is left with the page's id and blank. Pinned frames are kept then, too.
pub fetch_page-Fetched :
    {fs : FileSystem} (w : Pool fs) (p : PageId) → Inv w → Fetched w p (fetch_page fs w p)
fetch_page-Fetched {fs} w p v = elim (Option-cases (find p w.shard.page_table)) [
  | inr (f, e) ↦ rw (fetch_hit w p f e) (
    hit-Inv w v p f e,
    (hit_table w v p f e).0,
    hit_pins w v f,
    (hit_table w v p f e).1,
    hit_contents w v f,
    hit_pinned w v f,
  )
  | inl absent ↦ fetch_miss w v p absent
]
