-- ===== src/Storage/Manager/Table.antt =====
-- Which pages a call of a shard can add to the shard's page table: only the page asked for.
use aidv.Prelude.{
  ℕ, ◌≡◌, ◌≢◌, inl, inr, Bool, true, false, Option, none, some, List, arith, Option-cases,
  Bool-cases, ◌==◌, if◌then◌else◌, ltb,
}
use aidv.Storage.PageTable.{PageId, page_eq_iff, find, find-put, find-erase}
use aidv.Storage.Disk.{Data, FileSystem, DiskManager, read_page}
use aidv.Storage.Shard.{
  Shard, Pool, Outcome, returns, throws, erase_id, find_victim_page, write_back, update_page,
  read_in, install, hit, fetch_page, new_page, release, unpin_page, flush_frame, flush_page,
  delete_page, drop_page, internal_error, set_page, write_own,
}

-- The table after the call holds a page only if it held it before, or it is `p`.
abbrev pub Within : {fs : FileSystem} → Shard → PageId → Pool fs → Type 0
Within s p w' =
    (q : PageId) → p ≢ q → find q s.page_table ≡ none → find q w'.shard.page_table ≡ none

abbrev pub Confined : {fs : FileSystem} {A : Type 0} → Shard → PageId → Outcome fs A → Type 0
Confined s p (returns _ w') = Within s p w'
Confined s p (throws _ w') = Within s p w'

erase_id-none :
    (old : Option PageId) (q : PageId) (m : List (PageId × ℕ))
    → find q m ≡ none
    → find q (erase_id old m) ≡ none
erase_id-none none q m e = e
erase_id-none (some p) q m e = ground (arith, find-erase p q m)

module _ {fs : FileSystem} where
  update_page-Confined :
      (w : Pool fs) (p : PageId) (f : ℕ) → Confined w.shard p (update_page fs w p f)
  unfolding update_page
  update_page-Confined w p f = elim (Bool-cases ((w.shard.pages f).pin_count == 0)) [
    | inr z ↦ rw (z) (λ q ne e. e)
    | inl z ↦ elim (Option-cases (write_back fs w.disk (w.shard.pages f))) [
      | inl k ↦ rw (z, k) (λ q ne e. e)
      | inr (disk, k) ↦
          rw (z, k)
            (λ q ne e. ground (
              arith,
              find-put p q f (erase_id (w.shard.pages f).id w.shard.page_table),
              erase_id-none (w.shard.pages f).id q w.shard.page_table e,
              page_eq_iff p q,
            ))
    ]
  ]

victim_table : (s : Shard) → (find_victim_page s).0.page_table ≡ s.page_table
unfolding find_victim_page
victim_table s = ground arith

module _ {fs : FileSystem} {A : Type 0} (s : Shard) (p : PageId) where
  loaded-Confined :
      (r : Outcome fs (Unit {0})) (next : Pool fs → Outcome fs A)
      → Confined s p r
      → ((w : Pool fs) → Within s p w → Confined s p (next w))
      → Confined s p (elim r [ throws e w ↦ throws e w | returns _ w ↦ next w ])
  loaded-Confined (throws e w) next c k = c
  loaded-Confined (returns _ w) next c k = k w c

Confined-trans :
    {fs : FileSystem} {A : Type 0} (s s' : Shard) (p : PageId) (r : Outcome fs A)
    → ((q : PageId) → p ≢ q → find q s.page_table ≡ none → find q s'.page_table ≡ none)
    → Confined s' p r
    → Confined s p r
Confined-trans s s' p (returns _ w) a c = λ q ne e. c q ne (a q ne e)
Confined-trans s s' p (throws _ w) a c = λ q ne e. c q ne (a q ne e)

module _ {fs : FileSystem} (s : Shard) (w : Pool fs) (p : PageId) where
  read_data :
      (f : ℕ) (o : Option Data)
      → Within s p w
      → Confined {A = Option ℕ} s p (elim o [
        | none ↦ throws internal_error w
        | some content ↦ returns (some f) (install fs w f content)
      ])
  unfolding install
  read_data f none c = c
  read_data f (some content) c = c

  read_in-Confined : (f : ℕ) → Within s p w → Confined s p (read_in fs w p f)
  unfolding read_in
  read_in-Confined f c = read_data f (read_page fs w.disk p) c

module _ {fs : FileSystem} (w : Pool fs) (p : PageId) where
  abbrev taken : Pool fs
  taken = record w { shard = (find_victim_page w.shard).0 }

  Within-taken : Within w.shard p taken
  Within-taken q ne e = rw (victim_table w.shard) e

  updated-Confined : (f : ℕ) → Confined w.shard p (update_page fs taken p f)
  updated-Confined f =
      Confined-trans w.shard taken.shard p (update_page fs taken p f) Within-taken
        (update_page-Confined taken p f)

  fetch_victim :
      (o : Option ℕ)
      → Confined {A = Option ℕ} w.shard p (elim o [
        | none ↦ returns none taken
        | some f ↦ elim (update_page fs taken p f) [
          | throws e w' ↦ throws e w'
          | returns _ w' ↦ read_in fs w' p f
        ]
      ])
  fetch_victim none = Within-taken
  fetch_victim (some f) =
      loaded-Confined w.shard p (update_page fs taken p f) (λ u. read_in fs u p f)
        (updated-Confined f) (λ u c. read_in-Confined w.shard u p f c)

  fetch_found :
      (o : Option ℕ)
      → Confined {A = Option ℕ} w.shard p (elim o [
        | some f ↦ returns (some f) (hit fs w f)
        | none ↦ elim (find_victim_page w.shard).1 [
          | none ↦ returns none taken
          | some f ↦ elim (update_page fs taken p f) [
            | throws e w' ↦ throws e w'
            | returns _ w' ↦ read_in fs w' p f
          ]
        ]
      ])
  unfolding hit
  fetch_found none = fetch_victim (find_victim_page w.shard).1
  fetch_found (some f) = λ q ne e. e

  pub fetch_page-Confined : Confined w.shard p (fetch_page fs w p)
  unfolding fetch_page
  fetch_page-Confined = fetch_found (find p w.shard.page_table)

  new_victim :
      (o : Option ℕ)
      → Confined {A = Option ℕ} w.shard p (elim o [
        | none ↦ returns none taken
        | some f ↦ elim (update_page fs taken p f) [
          | throws e w' ↦ throws e w'
          | returns _ w' ↦ returns (some f) (install fs w' f (w'.shard.pages f).content)
        ]
      ])
  unfolding install
  new_victim none = Within-taken
  new_victim (some f) =
      loaded-Confined w.shard p (update_page fs taken p f)
        (λ u. returns (some f) (install fs u f (u.shard.pages f).content)) (updated-Confined f)
        (λ u c. c)

  pub new_page-Confined : Confined w.shard p (new_page fs w p)
  unfolding new_page
  new_page-Confined = new_victim (find_victim_page w.shard).1

  flush_written :
      (f : ℕ) (o : Option (DiskManager fs))
      → Confined {A = Bool} w.shard p
          (elim (elim o as (λ _. Outcome fs (Unit {0})) [
            | none ↦ throws internal_error w
            | some disk ↦ returns tt (record {
              shard = record (w.shard) {
                pages = set_page w.shard.pages f (record (w.shard.pages f) { is_dirty = false });
              };
              disk = disk;
            })
          ]) [ throws e w' ↦ throws e w' | returns _ w' ↦ returns true w' ])
  flush_written f none = λ q ne e. e
  flush_written f (some disk) = λ q ne e. e

  flush_found :
      (o : Option ℕ)
      → Confined {A = Bool} w.shard p (elim o [
        | none ↦ returns false w
        | some f ↦ elim (flush_frame fs w f) [
          | throws e w' ↦ throws e w'
          | returns _ w' ↦ returns true w'
        ]
      ])
  unfolding flush_frame
  flush_found none = λ q ne e. e
  flush_found (some f) = flush_written f (write_own fs w.disk (w.shard.pages f))

  pub flush_page-Confined : Confined w.shard p (flush_page fs w p)
  unfolding flush_page
  flush_page-Confined = flush_found (find p w.shard.page_table)

  pub unpin_page-Within : (d : Bool) → Within w.shard p (unpin_page fs w p d).1
  unfolding unpin_page release
  unpin_page-Within d q ne e = ground (arith, e)

  delete_written :
      (f : ℕ) (o : Option (DiskManager fs))
      → Confined {A = Bool} w.shard p (elim o [
        | none ↦ throws internal_error w
        | some disk ↦ returns true (drop_page fs w p f disk)
      ])
  unfolding drop_page
  delete_written f none = λ q ne e. e
  delete_written f (some disk) = λ q ne e. ground (arith, find-erase p q w.shard.page_table)

  delete_tested :
      (f : ℕ) (pinned : Bool)
      → Confined {A = Bool} w.shard p (
          if pinned then returns false w else elim (write_back fs w.disk (w.shard.pages f)) [
            | none ↦ throws internal_error w
            | some disk ↦ returns true (drop_page fs w p f disk)
          ])
  delete_tested f true = λ q ne e. e
  delete_tested f false = delete_written f (write_back fs w.disk (w.shard.pages f))

  delete_found :
      (o : Option ℕ)
      → Confined {A = Bool} w.shard p (elim o [
        | none ↦ returns true w
        | some f ↦
            if ltb 0 (w.shard.pages f).pin_count
            then returns false w
            else elim (write_back fs w.disk (w.shard.pages f)) [
              | none ↦ throws internal_error w
              | some disk ↦ returns true (drop_page fs w p f disk)
            ]
      ])
  delete_found none = λ q ne e. e
  delete_found (some f) = delete_tested f (ltb 0 (w.shard.pages f).pin_count)

  pub delete_page-Confined : Confined w.shard p (delete_page fs w p)
  unfolding delete_page
  delete_page-Confined = delete_found (find p w.shard.page_table)
