-- ===== src/Storage/Shard/Delete.antt =====
-- `delete_page` of the shard.
use aidv.Prelude.{
  ℕ, ◌<◌, ◌≡◌, refl, ◌≢◌, inl, inr, Bool, true, false, ◌||◌, none, some, arith, ◌==◌, if◌then◌else◌,
  Option-cases, Bool-cases, eq-or-ne, subst, List, [], ◌∷◌, ◌++◌,
}
use aidv.Replacer.Order.{elem}
use aidv.Replacer.Membership.{holds-pin, pin-IsValid}
use aidv.Storage.PageTable.{PageId, page_eq, page_eq_iff, find, find-erase}
use aidv.Storage.Disk.{Data, FileSystem, DiskManager, read_page}
use aidv.Storage.Disk.Pages.{read-deallocate}
use aidv.Storage.Shard.{
  Pool, Outcome, returns, throws, internal_error, write_back, drop_page, delete_page,
}
use aidv.Storage.Shard.Invariant.{Inv, Unrepeated}
use aidv.Storage.Shard.Loading.{contents, read-write_back, read-write_back_self}
use aidv.Storage.Shard.Fetch.{KeepsContents}

elem-append : (f : ℕ) (xs : List ℕ) (g : ℕ) → elem g (xs ++ f ∷ []) ≡ elem g xs || f == g
elem-append f [] g = ground arith
elem-append f (x ∷ xs) g = ground (arith, elem-append f xs g)

append-Unrepeated :
    (f : ℕ) (xs : List ℕ) → Unrepeated xs → elem f xs ≡ false → Unrepeated (xs ++ f ∷ [])
append-Unrepeated f [] u n = (refl, tt)
append-Unrepeated f (x ∷ xs) u n =
    (ground (arith, elem-append f xs x, u.0), append-Unrepeated f xs u.1 (ground arith))

-- The page is in no frame afterwards, and its bytes are on disk. A pinned page is refused.
abbrev pub Deleted : {fs : FileSystem} → Pool fs → PageId → Outcome fs Bool → Type 0
Deleted w p (returns true w') = Inv w' × KeepsContents w w' × (find p w'.shard.page_table ≡ none)
Deleted w p (returns false w') =
    (w' ≡ w) × (f : ℕ) × (find p w.shard.page_table ≡ some f) × (0 < (w.shard.pages f).pin_count)
Deleted {fs} w p (throws e w') =
    (w' ≡ w) × (f : ℕ) × (write_back fs w.disk (w.shard.pages f) ≡ none)

module _ {fs : FileSystem} (w : Pool fs) (v : Inv w) (p : PageId) where
  module _ (f : ℕ) (e : find p w.shard.page_table ≡ some f) (z : (w.shard.pages f).pin_count ≡ 0)
      (disk : DiskManager fs) (written : write_back fs w.disk (w.shard.pages f) ≡ some disk) where
    abbrev dropped : Pool fs
    dropped = drop_page fs w p f disk

    id_here : (w.shard.pages f).id ≡ some p
    id_here = (v.resident p f e).0

    read_dropped : (q : PageId) → read_page fs dropped.disk q ≡ read_page fs disk q
    unfolding drop_page
    read_dropped q = rw id_here (read-deallocate fs disk p q)

    kept :
        (q : PageId) (d : Data)
        → p ≢ q
        → read_page fs w.disk q ≡ some d
        → read_page fs disk q ≡ some d
    kept q d ne =
        read-write_back fs w.disk disk (w.shard.pages f) q d written
          (λ (i : (w.shard.pages f).id ≡ some q). ground (arith, id_here))

    saved : read_page fs disk p ≡ some (w.shard.pages f).content
    saved =
        read-write_back_self fs w.disk disk (w.shard.pages f) p written id_here
          (v.clean p f id_here z)

    dropped-clean :
        (q : PageId) (g : ℕ)
        → (dropped.shard.pages g).id ≡ some q
        → (dropped.shard.pages g).pin_count ≡ 0
        → (dropped.shard.pages g).is_dirty ≡ false
        → read_page fs dropped.disk q ≡ some (dropped.shard.pages g).content
    unfolding drop_page
    dropped-clean q g i n d =
        ground
          (arith, v.clean q g, v.named q g, e, read_dropped q, kept q (w.shard.pages g).content)

    dropped-Inv : Inv dropped
    unfolding drop_page
    dropped-Inv = record {
      replacer = pin-IsValid w.shard.replacer v.replacer f;
      resident = λ q g k.
          ground
            (arith, v.resident q g, find-erase p q w.shard.page_table, page_eq_iff p q, id_here);
      named = λ q g k.
          ground (arith, v.named q g, find-erase p q w.shard.page_table, page_eq_iff p q, e);
      evictable = λ g k. ground (arith, holds-pin w.shard.replacer f g, v.evictable g);
      unpinned = λ g k l. ground (arith, holds-pin w.shard.replacer f g, v.unpinned g);
      free = λ g k. ground (arith, elem-append f w.shard.free_list g, v.free g, v.resident p f e);
      idle = λ g k l. ground (arith, elem-append f w.shard.free_list g, v.idle g);
      unrepeated =
          append-Unrepeated f w.shard.free_list v.unrepeated (ground (arith, v.free f, id_here));
      clean = dropped-clean;
    }

    table_dropped :
        (q : PageId)
        → find q dropped.shard.page_table
          ≡ (if page_eq p q then none else find q w.shard.page_table)
    unfolding drop_page
    table_dropped q = find-erase p q w.shard.page_table

    page_dropped : (g : ℕ) → f ≢ g → dropped.shard.pages g ≡ w.shard.pages g
    unfolding drop_page
    page_dropped g ne = ground arith

    dropped_contents : KeepsContents w dropped
    unfolding contents
    dropped_contents q d c = elim (Bool-cases (page_eq p q)) [
      | inl same ↦
          let here : p ≡ q = (page_eq_iff p q).0 same in
          subst (λ (x : PageId). contents dropped x ≡ some d) here
            (ground (arith, table_dropped p, page_eq_iff p p, read_dropped p, saved, e))
      | inr other ↦
          let ne : p ≢ q = λ (k : p ≡ q). ground (arith, page_eq_iff p q) in
          elim (Option-cases (find q w.shard.page_table)) [
            | inl n ↦ ground (arith, n, table_dropped q, read_dropped q, kept q d ne)
            | inr (g, n) ↦
                let apart : f ≢ g = λ (k : f ≡ g). ground (arith, id_here, v.resident q g n) in
                ground (arith, n, table_dropped q, page_dropped g apart)
          ]
    ]

    dropped_table : find p dropped.shard.page_table ≡ none
    unfolding drop_page
    dropped_table = ground (arith, find-erase p p w.shard.page_table, page_eq_iff p p)

  pub delete_absent : find p w.shard.page_table ≡ none → delete_page fs w p ≡ returns true w
  unfolding delete_page
  delete_absent e = simp (e, delete_page)

  module _ (f : ℕ) (e : find p w.shard.page_table ≡ some f) where
    pub delete_pinned : 0 < (w.shard.pages f).pin_count → delete_page fs w p ≡ returns false w
    unfolding delete_page
    delete_pinned n = ground (arith, e)

    pub delete_fails :
        (w.shard.pages f).pin_count ≡ 0
        → write_back fs w.disk (w.shard.pages f) ≡ none
        → delete_page fs w p ≡ throws internal_error w
    unfolding delete_page
    delete_fails z k = ground (arith, e, k)

    pub delete_done :
        (disk : DiskManager fs)
        → (w.shard.pages f).pin_count ≡ 0
        → write_back fs w.disk (w.shard.pages f) ≡ some disk
        → delete_page fs w p ≡ returns true (drop_page fs w p f disk)
    unfolding delete_page
    delete_done disk z k = ground (arith, e, k)

    delete_resident : Deleted w p (delete_page fs w p)
    delete_resident = elim (eq-or-ne (w.shard.pages f).pin_count 0) [
      | inr n ↦ rw (delete_pinned (omega arith)) (refl, f, e, omega arith)
      | inl z ↦ elim (Option-cases (write_back fs w.disk (w.shard.pages f))) [
        | inl k ↦ rw (delete_fails z k) (refl, f, k)
        | inr (disk, k) ↦
            rw (delete_done disk z k)
              (dropped-Inv f e z disk k, dropped_contents f e z disk k, dropped_table f e z disk k)
      ]
    ]

  -- `delete_page` succeeds on a page that is not resident or not pinned. The page is in no frame
  -- then, the invariant holds, and every page's bytes are kept, the deleted page's on disk. It
  -- refuses a pinned page, and throws only if the disk refuses to write; both change nothing.
  pub delete_page-Deleted : Deleted w p (delete_page fs w p)
  delete_page-Deleted = elim (Option-cases (find p w.shard.page_table)) [
    | inl e ↦ rw (delete_absent e) (v, λ q d c. c, e)
    | inr (f, e) ↦ delete_resident f e
  ]
