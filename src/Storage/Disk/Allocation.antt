-- ===== src/Storage/Disk/Allocation.antt =====
-- Page numbers in use: `allocate_page` gives none out twice until `deallocate_page` takes it back.
use aidv.Prelude.{
  ℕ, suc, ◌<◌, ◌≡◌, refl, ap, ◌∙◌, subst, Bool, true, false, ◌&&◌, ◌||◌, not, Option, none, some,
  List, [], ◌∷◌, ◌++◌, arith, ◌==◌, inl, inr, Option-cases,
}
use aidv.Prelude.Assoc.{lookup, insert, lookup-insert, lookup-insert_self}
use aidv.Replacer.Order.{elem}
use aidv.Storage.Disk.{
  FileSystem, DiskManager, next_page, free_list_of, take_back, recycled, allocate_page,
  deallocate_page,
}
use aidv.Storage.Shard.Invariant.{Unrepeated}

-- The numbers of the file's pages in use are below the counter and not on the free list.
pub record InUse {fs : FileSystem} (disk : DiskManager fs) (fd : ℕ) (used : ℕ → Bool) : Type 0 where
  pub below : (n : ℕ) → used n ≡ true → n < next_page fs (lookup fd disk.fd2pageno)
  pub apart : (n : ℕ) → used n ≡ true → elem n (free_list_of fs (lookup fd disk.free_pages)) ≡ false
  pub free_below :
      (n : ℕ)
      → elem n (free_list_of fs (lookup fd disk.free_pages)) ≡ true
      → n < next_page fs (lookup fd disk.fd2pageno)
  pub once : Unrepeated (free_list_of fs (lookup fd disk.free_pages))

elem-append : (n x : ℕ) (xs : List ℕ) → elem n (xs ++ x ∷ []) ≡ elem n xs || n == x
elem-append n x [] = ground arith
elem-append n x (y ∷ xs) = ground (arith, elem-append n x xs)

Unrepeated-append :
    (x : ℕ) (xs : List ℕ) → Unrepeated xs → elem x xs ≡ false → Unrepeated (xs ++ x ∷ [])
Unrepeated-append x [] u h = (refl, tt)
Unrepeated-append x (y ∷ xs) u h =
    (ground (arith, elem-append y x xs, u.0), Unrepeated-append x xs u.1 (ground arith))

-- `back()` and `pop_back()` of a list that holds no number twice.
abbrev Back : List ℕ → Option (ℕ × List ℕ) → Type 0
Back ps none = ps ≡ []
Back ps (some r) =
    ((n : ℕ) → elem n ps ≡ (n == r.0 || elem n r.1)) × (elem r.0 r.1 ≡ false) × Unrepeated r.1

Back-below :
    (p q : ℕ) (ps : List ℕ) (o : Option (ℕ × List ℕ))
    → elem p (q ∷ ps) ≡ false
    → Back (q ∷ ps) o
    → Back (p ∷ q ∷ ps) (elim o [ none ↦ none | some (r, rest) ↦ some (r, p ∷ rest) ])
Back-below p q ps none h b = absurd cc
Back-below p q ps (some (r, rest)) h b =
    (λ n. ground (arith, b.0 n), ground (arith, b.0 p, b.0 r, b.1), (ground (arith, b.0 p), b.2))

take_back-Back : (fs : FileSystem) (ps : List ℕ) → Unrepeated ps → Back ps (take_back fs ps)
unfolding take_back
take_back-Back fs [] u = refl
take_back-Back fs (p ∷ []) u = (λ n. ground arith, refl, tt)
take_back-Back fs (p ∷ q ∷ ps) u =
    Back-below p q ps (take_back fs (q ∷ ps)) u.0 (take_back-Back fs (q ∷ ps) u.1)

recycled-Back :
    (fs : FileSystem) (o : Option (List ℕ))
    → Unrepeated (free_list_of fs o)
    → Back (free_list_of fs o) (recycled fs o)
unfolding recycled free_list_of
recycled-Back fs none u = refl
recycled-Back fs (some ps) u = take_back-Back fs ps u

take_back-append :
    (fs : FileSystem) (n : ℕ) (xs : List ℕ) → take_back fs (xs ++ n ∷ []) ≡ some (n, xs)
unfolding take_back
take_back-append fs n [] = refl
take_back-append fs n (x ∷ []) = refl
take_back-append fs n (x ∷ y ∷ xs) = rw (take_back-append fs n (y ∷ xs)) refl

allocate_listed :
    {fs : FileSystem} (disk : DiskManager fs) (fd n : ℕ) (xs : List ℕ)
    → lookup fd disk.free_pages ≡ some (xs ++ n ∷ [])
    → (allocate_page fs disk fd).0 ≡ n
unfolding allocate_page recycled
allocate_listed {fs} disk fd n xs e =
    let back = ap (recycled fs) e ∙ take_back-append fs n xs in simp (back, allocate_page)

module _ {fs : FileSystem} (disk : DiskManager fs) (fd : ℕ) (used : ℕ → Bool)
    (v : InUse disk fd used) where
  abbrev free : List ℕ
  free = free_list_of fs (lookup fd disk.free_pages)

  from_counter :
      recycled fs (lookup fd disk.free_pages) ≡ none
      → allocate_page fs disk fd ≡ (
        next_page fs (lookup fd disk.fd2pageno),
        record disk {
          fd2pageno = insert fd (suc (next_page fs (lookup fd disk.fd2pageno))) disk.fd2pageno;
        },
      )
  unfolding allocate_page
  from_counter e = simp (e, allocate_page)

  from_list :
      (p : ℕ) (rest : List ℕ)
      → recycled fs (lookup fd disk.free_pages) ≡ some (p, rest)
      → allocate_page fs disk fd ≡ (p, record disk { free_pages = insert fd rest disk.free_pages })
  unfolding allocate_page
  from_list p rest e = simp (e, allocate_page)

  -- The number given out was not in use, and is now.
  abbrev pub Allocated : ℕ × DiskManager fs → Type 0
  Allocated r = (used r.0 ≡ false) × InUse r.1 fd (λ n. n == r.0 || used n)

  -- `allocate_page` of a file gives out a page number that is not in use, recycled or new, and
  -- keeps the numbers in use below the counter and off the free list.
  pub allocate_page-Allocated : Allocated (allocate_page fs disk fd)
  unfolding next_page free_list_of
  allocate_page-Allocated = elim (Option-cases (recycled fs (lookup fd disk.free_pages))) [
    | inl e ↦ rw (from_counter e) (
      ground (arith, v.below (next_page fs (lookup fd disk.fd2pageno))),
      record {
        below = λ n h. ground (
          arith,
          lookup-insert fd fd (suc (next_page fs (lookup fd disk.fd2pageno))) disk.fd2pageno,
          v.below n,
        );
        apart = λ n h. ground (arith, v.apart n, v.free_below n);
        free_below = λ n h. ground (
          arith,
          lookup-insert fd fd (suc (next_page fs (lookup fd disk.fd2pageno))) disk.fd2pageno,
          v.free_below n,
        );
        once = v.once;
      },
    )
    | inr ((p, rest), e) ↦
        let b = subst (Back free) e (recycled-Back fs (lookup fd disk.free_pages) v.once) in
        rw (from_list p rest e) (
          ground (arith, v.apart p, b.0 p),
          record {
            below = λ n h. ground (arith, v.below n, v.free_below n, b.0 n);
            apart = λ n h.
                ground (arith, v.apart n, b.0 n, b.1, lookup-insert fd fd rest disk.free_pages);
            free_below = λ n h.
                ground (arith, v.free_below n, b.0 n, lookup-insert fd fd rest disk.free_pages);
            once = rw (lookup-insert_self fd rest disk.free_pages) b.2;
          },
        )
  ]

  abbrev pub freed : ℕ → DiskManager fs
  freed n = deallocate_page fs disk (record { fd = fd; page_no = n })

  listed : (n : ℕ) → lookup fd (freed n).free_pages ≡ some (free ++ n ∷ [])
  unfolding deallocate_page
  listed n = lookup-insert_self fd (free ++ n ∷ []) disk.free_pages

  again : (n : ℕ) → (allocate_page fs (freed n) fd).0 ≡ n
  again n = allocate_listed (freed n) fd n free (listed n)

  -- `deallocate_page` of a page in use takes its number back: it is not in use then, and the next
  -- `allocate_page` of the file gives it out again.
  pub deallocate_page-Freed :
      (n : ℕ)
      → used n ≡ true
      → InUse (freed n) fd (λ m. not (m == n) && used m) × ((allocate_page fs (freed n) fd).0 ≡ n)
  unfolding deallocate_page free_list_of
  deallocate_page-Freed n h = (
    record {
      below = λ m k. ground (arith, v.below m);
      apart = λ m k. ground (arith, v.apart m, listed n, elem-append m n free);
      free_below = λ m k. ground (arith, v.free_below m, v.below n, listed n, elem-append m n free);
      once = rw (listed n) (Unrepeated-append n free v.once (v.apart n h));
    },
    again n,
  )
