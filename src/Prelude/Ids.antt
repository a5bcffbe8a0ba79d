-- ===== src/Prelude/Ids.antt =====
-- Sets of ids as lists: the standard library's sets of transactions.
use Prim.Native.Nat.{ℕ}
use mathlib.Core.Path.{◌≡◌}
use mathlib.Core.Bool.{Bool, true, false}
use mathlib.Core.List.{List, [], ◌∷◌}
use native.Mathlib.Omega.{arith}
use aidv.Prelude.Tests.{◌==◌, if◌then◌else◌}

abbrev pub listed : ℕ → List ℕ → Bool
listed k [] = false
listed k (id ∷ ids) = if id == k then true else listed k ids

abbrev pub insert_id : ℕ → List ℕ → List ℕ
insert_id id ids = if listed id ids then ids else id ∷ ids

abbrev pub without : ℕ → List ℕ → List ℕ
without id [] = []
without id (x ∷ xs) = if x == id then without id xs else x ∷ without id xs

pub listed-without :
    (id k : ℕ) (ids : List ℕ)
    → listed id (without k ids) ≡ (if k == id then false else listed id ids)
listed-without id k [] = ground arith
listed-without id k (x ∷ xs) = ground (arith, listed-without id k xs)

pub listed-insert_id :
    (id k : ℕ) (ids : List ℕ)
    → listed id (insert_id k ids) ≡ (if k == id then true else listed id ids)
listed-insert_id id k ids = ground arith
