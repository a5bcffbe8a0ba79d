-- ===== src/Storage/Shard/Victim.antt =====
-- `find_victim_page`: the frame that it takes, and when it takes none.
use aidv.Prelude.{
  subst, ℕ, ◌<◌, ◌≡◌, refl, ◌⊎◌, inl, inr, Option, none, some, List, [], ◌∷◌, arith, List-cases,
  Option-cases,
}
use aidv.Replacer
use aidv.Replacer.Membership.{victim-IsValid, holds-victim-some, holds-victim-none}
use aidv.Storage.Disk.{FileSystem}
use aidv.Storage.Shard.{Shard, Pool, find_victim_page}
use aidv.Storage.Shard.Invariant.{Inv, Taken, Unrepeated, not-both}

-- Every frame of the pool is pinned.
abbrev pub AllPinned : Shard → Type 0
AllPinned s = (f : ℕ) → f < s.pool_size → 0 < (s.pages f).pin_count

abbrev Found : Shard → Shard × Option ℕ → Type 0
Found s r = ((r.1 ≡ none) × (r.0 ≡ s) × AllPinned s) ⊎ ((f : ℕ) × (r.1 ≡ some f) × Taken s r.0 f)

pops :
    (s : Shard) (f : ℕ) (rest : List ℕ)
    → s.free_list ≡ f ∷ rest
    → find_victim_page s ≡ (record s { free_list = rest }, some f)
unfolding find_victim_page
pops s f rest e = simp (e, find_victim_page)

evicts :
    (s : Shard)
    → s.free_list ≡ []
    → find_victim_page s
      ≡ (record s { replacer = (Replacer.victim s.replacer).0 }, (Replacer.victim s.replacer).1)
unfolding find_victim_page
evicts s e = simp (e, find_victim_page)

module _ {fs : FileSystem} (w : Pool fs) (v : Inv w) where
  open w.shard use {free_list, pages, replacer}

  Taken-free :
      (f : ℕ) (rest : List ℕ)
      → free_list ≡ f ∷ rest
      → Taken w.shard (record (w.shard) { free_list = rest }) f
  Taken-free f rest e =
      let u : Unrepeated (f ∷ rest) = subst Unrepeated e v.unrepeated in
      record {
        pages = refl;
        page_table = refl;
        pool_size = refl;
        from = inl (ground (arith, e));
        free_list = λ g. ground (arith, e, u.0);
        held = λ g. ground (arith, e, not-both w v f);
        valid = v.replacer;
        unrepeated = u.1;
      }

  Taken-victim :
      (f : ℕ)
      → free_list ≡ []
      → (Replacer.victim replacer).1 ≡ some f
      → Taken w.shard (record (w.shard) { replacer = (Replacer.victim replacer).0 }) f
  Taken-victim f e h = record {
    pages = refl;
    page_table = refl;
    pool_size = refl;
    from = inr (holds-victim-some replacer v.replacer f f h).0;
    free_list = λ g. ground (arith, e);
    held = λ g. (holds-victim-some replacer v.replacer f g h).1;
    valid = victim-IsValid replacer v.replacer;
    unrepeated = v.unrepeated;
  }

  all_pinned : free_list ≡ [] → (Replacer.victim replacer).1 ≡ none → AllPinned w.shard
  all_pinned e h f lt = elim (Option-cases (pages f).id) [
    | inl n ↦ absurd (ground (arith, v.idle f lt n, e))
    | inr (p, i) ↦ ground (
      arith,
      v.unpinned f (λ (n : (pages f).id ≡ none). cc),
      (holds-victim-none replacer v.replacer f h).1,
    )
  ]

  pub find_victim_page-Found : Found w.shard (find_victim_page w.shard)
  find_victim_page-Found = elim (List-cases free_list) [
    | inr (f, rest, e) ↦ rw (pops w.shard f rest e) (inr (f, refl, Taken-free f rest e))
    | inl e ↦ elim (Option-cases (Replacer.victim replacer).1) [
      | inr (f, h) ↦ rw (evicts w.shard e) (inr (f, h, Taken-victim f e h))
      | inl h ↦
          rw (evicts w.shard e, (holds-victim-none replacer v.replacer 0 h).0)
            (inl (h, refl, all_pinned e h))
    ]
  ]
