-- ===== src/Storage/PageTable.antt =====
-- rmdb/src/storage/page.h: `PageId`, and maps that are keyed by it, such as the `page_table_` of
-- rmdb/src/storage/buffer_pool_manager.h.
use aidv.Prelude.{
  ℕ, ◌≡◌, refl, ◌↔◌, Bool, true, ◌&&◌, Option, none, some, List, [], ◌∷◌, arith, ◌==◌,
  if◌then◌else◌,
}

pub record PageId : Type 0 where
  pub fd : ℕ
  pub page_no : ℕ

-- `operator==`
unfoldable pub page_eq : PageId → PageId → Bool
page_eq x y = x.fd == y.fd && x.page_no == y.page_no

pub page_eq_iff : (x y : PageId) → (page_eq x y ≡ true) ↔ (x ≡ y)
unfolding page_eq
page_eq_iff x y = ground arith

pub page_eq_refl : (x : PageId) → page_eq x x ≡ true
page_eq_refl x = (page_eq_iff x x).1 refl

module _ {ℓ} {V : Type ℓ} where
  abbrev pub find : PageId → List (PageId × V) → Option V
  find k [] = none
  find k ((j, v) ∷ m) = if page_eq j k then some v else find k m

  abbrev pub put : PageId → V → List (PageId × V) → List (PageId × V)
  put k v [] = (k, v) ∷ []
  put k v ((j, w) ∷ m) = if page_eq j k then (k, v) ∷ m else (j, w) ∷ put k v m

  abbrev pub erase : PageId → List (PageId × V) → List (PageId × V)
  erase k [] = []
  erase k ((j, w) ∷ m) = if page_eq j k then erase k m else (j, w) ∷ erase k m

  pub find-put :
      (k j : PageId) (v : V) (m : List (PageId × V))
      → find j (put k v m) ≡ (if page_eq k j then some v else find j m)
  find-put k j v [] = refl
  find-put k j v ((i, w) ∷ m) =
      ground (arith, page_eq_iff k j, page_eq_iff i k, page_eq_iff i j, find-put k j v m)

  pub find-erase :
      (k j : PageId) (m : List (PageId × V))
      → find j (erase k m) ≡ (if page_eq k j then none else find j m)
  find-erase k j [] = ground arith
  find-erase k j ((i, w) ∷ m) =
      ground (arith, page_eq_iff k j, page_eq_iff i k, page_eq_iff i j, find-erase k j m)
