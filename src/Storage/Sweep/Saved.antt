-- ===== src/Storage/Sweep/Saved.antt =====
-- The pages that the disk holds as they stand in their frames, and what one flush adds to them.
use aidv.Prelude.{ℕ, ◌≡◌, refl, ◌∙◌, inl, inr, false, some, arith, Option-cases, Bool-cases}
use aidv.Storage.PageTable.{PageId, page_eq, page_eq_iff, find}
use aidv.Storage.Disk.{FileSystem, DiskManager, read_page}
use aidv.Storage.Shard.{Pool, write_own}
use aidv.Storage.Shard.Invariant.{Inv}
use aidv.Storage.Shard.Loading.{contents}
use aidv.Storage.Shard.Fetch.{KeepsContents}
use aidv.Storage.Shard.Flush.{flushed, flushed-Inv, flushed_contents, here, others}

pub Saved : {fs : FileSystem} → Pool fs → PageId → Type 0
Saved {fs} w q =
    (f : ℕ) → (w.shard.pages f).id ≡ some q → read_page fs w.disk q ≡ some (w.shard.pages f).content

-- One flush more: nothing is lost, and the frames and the table keep their pages.
pub record Further {fs : FileSystem} (w w' : Pool fs) : Type 0 where
  pub inv : Inv w'
  pub keeps : KeepsContents w w'
  pub table : w'.shard.page_table ≡ w.shard.page_table
  pub ids : (f : ℕ) → (w'.shard.pages f).id ≡ (w.shard.pages f).id
  pub saved : (q : PageId) → Saved w q → Saved w' q

module _ {fs : FileSystem} where
  pub Further-refl : (w : Pool fs) → Inv w → Further w w
  Further-refl w v = record {
    inv = v;
    keeps = λ q d c. c;
    table = refl;
    ids = λ f. refl;
    saved = λ q s. s;
  }

  pub Further-trans : (u v w : Pool fs) → Further u v → Further v w → Further u w
  Further-trans u v w a b = record {
    inv = b.inv;
    keeps = λ q d c. b.keeps q d (a.keeps q d c);
    table = b.table ∙ a.table;
    ids = λ f. b.ids f ∙ a.ids f;
    saved = λ q s. b.saved q (a.saved q s);
  }

  pub named-Saved :
      (w : Pool fs) (q : PageId) → ((f : ℕ) → (w.shard.pages f).id ≡ some q → Saved w q) → Saved w q
  unfolding Saved
  named-Saved w q h f i = h f i f i

  pub clean-Saved :
      (w : Pool fs) (v : Inv w) (p : PageId) (f : ℕ)
      → find p w.shard.page_table ≡ some f
      → (w.shard.pages f).pin_count ≡ 0
      → (w.shard.pages f).is_dirty ≡ false
      → Saved w p
  unfolding Saved
  clean-Saved w v p f e z d g i = ground (arith, v.clean p g i, v.named p g i)

  pub contents-Saved :
      (w : Pool fs) (q : PageId) → Inv w → Saved w q → contents w q ≡ read_page fs w.disk q
  unfolding contents Saved
  contents-Saved w q v s = elim (Option-cases (find q w.shard.page_table)) [
    | inl e ↦ ground (arith, e)
    | inr (f, e) ↦ ground (arith, e, s f, v.resident q f e)
  ]

module _ {fs : FileSystem} (w : Pool fs) (v : Inv w) (f : ℕ) (disk : DiskManager fs) (p : PageId)
    (e : find p w.shard.page_table ≡ some f)
    (k : write_own fs w.disk (w.shard.pages f) ≡ some disk) where
  pub flushed-Further : Further w (flushed w v f disk)
  unfolding Saved flushed
  flushed-Further = record {
    inv = flushed-Inv w v p f e disk k;
    keeps = flushed_contents w v p f e disk k;
    table = refl;
    ids = λ g. ground arith;
    saved = λ q s g h. ground (
      arith,
      here w v p f e disk k,
      v.resident p f e,
      v.named q g,
      s g,
      page_eq_iff p q,
      Bool-cases (page_eq p q),
      others w v p f e disk k q (w.shard.pages g).content,
    );
  }

  pub flushed-Saved : Saved (flushed w v f disk) p
  unfolding Saved flushed
  flushed-Saved g h = ground (arith, here w v p f e disk k, v.resident p f e, v.named p g)
