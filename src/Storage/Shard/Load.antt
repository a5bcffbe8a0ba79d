-- ===== src/Storage/Shard/Load.antt =====
-- The shard after a taken frame got its new page: the invariant holds, and no page's bytes are lost.
use aidv.Prelude.{
  ℕ, ◌<◌, ◌≡◌, refl, ap, ◌≢◌, inl, inr, false, none, some, arith, ◌==◌, if◌then◌else◌, Option-cases,
  Bool-cases, eq-or-ne,
}
use aidv.Replacer.Order.{elem}
use aidv.Replacer.Membership.{holds, holds-pin, pin-IsValid}
use aidv.Storage.PageTable.{PageId, page_eq, page_eq_iff, page_eq_refl, find, put, find-put}
use aidv.Storage.Disk.{Data, blank, FileSystem, DiskManager, read_page}
use aidv.Storage.Shard.{Page, Shard, Pool, set_page, erase_id, write_back, install}
use aidv.Storage.Shard.Invariant.{Inv, Taken}
use aidv.Storage.Shard.Loading.{
  contents, names, find-erase_id, find-erase_id_self, read-write_back, read-write_back_self,
}

-- `update_page` on the frame, when the old page is on disk.
abbrev pub updated : {fs : FileSystem} → Pool fs → Shard → ℕ → PageId → DiskManager fs → Pool fs
updated w s f p disk = record {
  shard = record s {
    pages =
        set_page s.pages f (record (s.pages f) { id = some p; content = blank; is_dirty = false });
    page_table = put p f (erase_id (s.pages f).id s.page_table);
  };
  disk = disk;
}

module _ {fs : FileSystem} (w : Pool fs) (v : Inv w) (s : Shard) (f : ℕ)
    (t : Taken w.shard s f) where
  at : (g : ℕ) → s.pages g ≡ w.shard.pages g
  at g = ap (λ (h : ℕ → Page). h g) t.pages

  pub taken-unpinned : (w.shard.pages f).pin_count ≡ 0
  taken-unpinned = ground (arith, t.from, v.free f, v.evictable f)

  taken-lt : f < w.shard.pool_size
  taken-lt = elim (Option-cases (w.shard.pages f).id) [
    | inl n ↦ ground (arith, t.from, v.free f, v.evictable f)
    | inr (p, n) ↦ (v.resident p f (v.named p f n)).1
  ]

  pub taken-clean :
      (q : PageId)
      → (w.shard.pages f).id ≡ some q
      → (w.shard.pages f).is_dirty ≡ false
      → read_page fs w.disk q ≡ some (w.shard.pages f).content
  taken-clean q i d = v.clean q f i taken-unpinned d

  module _ (p : PageId) (absent : find p w.shard.page_table ≡ none) (disk : DiskManager fs)
      (written : write_back fs w.disk (w.shard.pages f) ≡ some disk) (content : Data) where
    abbrev pub loaded : Pool fs
    loaded = install fs (updated w s f p disk) f content

    -- The page table reads as before, but for the new page and the page that had to go.
    table :
        (q : PageId)
        → find q loaded.shard.page_table ≡ (
            if page_eq p q
            then some f
            else find q (erase_id (w.shard.pages f).id w.shard.page_table))
    unfolding install
    table q =
        ground (arith, find-put p q f (erase_id (s.pages f).id s.page_table), at f, t.page_table)

    stays :
        (q : PageId) (g : ℕ)
        → f ≢ g
        → (w.shard.pages g).id ≡ some q
        → find q loaded.shard.page_table ≡ some g
    stays q g ne i = ground (
      arith,
      table q,
      page_eq_iff p q,
      v.named q g i,
      absent,
      find-erase_id (w.shard.pages f).id q w.shard.page_table,
      v.named q f,
    )

    goes :
        (q : PageId) (g : ℕ)
        → p ≢ q
        → find q loaded.shard.page_table ≡ some g
        → (find q w.shard.page_table ≡ some g) × (f ≢ g)
    goes q g ne h = elim (names (w.shard.pages f).id q) [
      | inl n ↦
          absurd
            (ground (arith, table q, page_eq_iff p q, find-erase_id_self _ q w.shard.page_table n))
      | inr n ↦
          let found : find q w.shard.page_table ≡ some g =
            ground (arith, table q, page_eq_iff p q, find-erase_id _ q w.shard.page_table n) in
          (found, λ (e : f ≡ g). n (rw e (v.resident q g found).0))
    ]

    pub frame_self :
        loaded.shard.pages f
        ≡ record { id = some p; content = content; is_dirty = false; pin_count = 1 }
    unfolding install
    frame_self = ground arith

    pub frame_ne : (g : ℕ) → f ≢ g → loaded.shard.pages g ≡ w.shard.pages g
    unfolding install
    frame_ne g ne = ground (arith, at g)

    holds_loaded :
        (g : ℕ)
        → holds loaded.shard.replacer g ≡ (if f == g then false else holds w.shard.replacer g)
    unfolding install
    holds_loaded g = ground (arith, holds-pin s.replacer f g, t.held g)

    evicted-written :
        (q : PageId)
        → (w.shard.pages f).id ≡ some q
        → read_page fs disk q ≡ some (w.shard.pages f).content
    evicted-written q i =
        read-write_back_self fs w.disk disk (w.shard.pages f) q written i (taken-clean q i)

    read_loaded : (q : PageId) → read_page fs loaded.disk q ≡ read_page fs disk q
    unfolding install
    read_loaded q = refl

    rest_loaded :
        (g : ℕ)
        → (loaded.shard.pool_size ≡ w.shard.pool_size)
          × (elem g loaded.shard.free_list ≡ (if f == g then false else elem g w.shard.free_list))
    unfolding install
    rest_loaded g = (t.pool_size, t.free_list g)

    -- The bytes of every page but the new one are kept: a resident page stays or is on disk.
    pub contents-loaded :
        (q : PageId) (d : Data) → p ≢ q → contents w q ≡ some d → contents loaded q ≡ some d
    unfolding contents
    contents-loaded q d ne c = elim (names (w.shard.pages f).id q) [
      | inl i ↦ ground (
        arith,
        table q,
        page_eq_iff p q,
        find-erase_id_self _ q w.shard.page_table i,
        read_loaded q,
        evicted-written q i,
        v.named q f i,
      )
      | inr i ↦ elim (Option-cases (find q w.shard.page_table)) [
        | inl n ↦ ground (
          arith,
          n,
          table q,
          page_eq_iff p q,
          find-erase_id _ q w.shard.page_table i,
          read_loaded q,
          read-write_back fs w.disk disk (w.shard.pages f) q d written i,
        )
        | inr (g, n) ↦
            let other : f ≢ g = λ (e : f ≡ g). i (rw e (v.resident q g n).0) in
            ground (arith, n, stays q g other (v.resident q g n).0, frame_ne g other)
      ]
    ]

    loaded-resident :
        (q : PageId) (g : ℕ)
        → find q loaded.shard.page_table ≡ some g
        → ((loaded.shard.pages g).id ≡ some q) × (g < loaded.shard.pool_size)
    loaded-resident q g h = elim (Bool-cases (page_eq p q)) [
      | inl e ↦ ground (arith, table q, frame_self, rest_loaded f, taken-lt, page_eq_iff p q)
      | inr e ↦
          let ne : p ≢ q = λ (k : p ≡ q). ground (arith, page_eq_iff p q) in
          let (found, other) = goes q g ne h in
          ground (arith, v.resident q g found, frame_ne g other, rest_loaded f)
    ]

    loaded-named :
        (q : PageId) (g : ℕ)
        → (loaded.shard.pages g).id ≡ some q
        → find q loaded.shard.page_table ≡ some g
    loaded-named q g i = elim (eq-or-ne f g) [
      | inl e ↦ ground (arith, frame_self, table q, page_eq_iff p q)
      | inr ne ↦ stays q g ne (ground (arith, frame_ne g ne))
    ]

    loaded-clean :
        (q : PageId) (g : ℕ)
        → (loaded.shard.pages g).id ≡ some q
        → (loaded.shard.pages g).pin_count ≡ 0
        → (loaded.shard.pages g).is_dirty ≡ false
        → read_page fs loaded.disk q ≡ some (loaded.shard.pages g).content
    loaded-clean q g i n d = elim (eq-or-ne f g) [
      | inl e ↦ absurd (ground (arith, frame_self))
      | inr ne ↦
          let i' : (w.shard.pages g).id ≡ some q = ground (arith, frame_ne g ne) in
          let other : (w.shard.pages f).id ≢ some q = λ (k : (w.shard.pages f).id ≡ some q).
            ne (ground (arith, v.named q f k, v.named q g i')) in
          ground (
            arith,
            frame_ne g ne,
            v.clean q g i',
            read_loaded q,
            read-write_back fs w.disk disk (w.shard.pages f) q (w.shard.pages g).content written
                other,
          )
    ]

    pub loaded-Inv : Inv loaded
    unfolding install
    loaded-Inv = record {
      replacer = pin-IsValid s.replacer t.valid f;
      resident = loaded-resident;
      named = loaded-named;
      evictable = λ g h. ground (arith, holds_loaded g, v.evictable g, frame_ne g);
      unpinned = λ g h k. ground (arith, holds_loaded g, v.unpinned g, frame_ne g, frame_self);
      free = λ g h. ground (arith, rest_loaded g, v.free g, frame_ne g);
      idle = λ g h k. ground (arith, rest_loaded g, v.idle g, frame_ne g, frame_self);
      unrepeated = t.unrepeated;
      clean = loaded-clean;
    }

    pub loaded-here :
        (find p loaded.shard.page_table ≡ some f) × (0 < (loaded.shard.pages f).pin_count)
    loaded-here = ground (arith, table p, page_eq_refl p, frame_self)

    pub loaded-pinned :
        (g : ℕ) → 0 < (w.shard.pages g).pin_count → loaded.shard.pages g ≡ w.shard.pages g
    loaded-pinned g h = frame_ne g (λ (e : f ≡ g). ground (arith, taken-unpinned))

    -- What the disk holds of the new page is what a reader would have got.
    pub contents-read : (d : Data) → contents w p ≡ some d → read_page fs disk p ≡ some d
    unfolding contents
    contents-read d c =
        let other : (w.shard.pages f).id ≢ some p =
          λ (i : (w.shard.pages f).id ≡ some p). ground (arith, v.named p f i) in
        ground (arith, absent, read-write_back fs w.disk disk (w.shard.pages f) p d written other)

    pub contents-loaded_self : contents loaded p ≡ some content
    unfolding contents
    contents-loaded_self = ground (arith, loaded-here, frame_self)
