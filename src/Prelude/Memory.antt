-- ===== src/Prelude/Memory.antt =====
-- Memory as a function from addresses to cells, for `memcpy` to and from a buffer.
use Prim.Native.Nat.{ℕ, zero, suc, ◌+◌, ◌≤◌, ◌<◌}
use mathlib.Core.Path.{◌≡◌, refl, sym, subst}
use mathlib.Core.List.{List, [], ◌∷◌, ◌++◌}
use native.Mathlib.Omega.{arith}
use aidv.Prelude.Tests.{◌==◌, if◌then◌else◌}
use aidv.Prelude.Lists.{length}

-- The cells one after another from the offset on.
unfoldable pub write_cells : (ℕ → ℕ) → ℕ → List ℕ → ℕ → ℕ
write_cells dest offset [] i = dest i
write_cells dest offset (x ∷ xs) i =
    let rest = write_cells dest (suc offset) xs i in if offset == i then x else rest

unfoldable pub read_cells : (ℕ → ℕ) → ℕ → ℕ → List ℕ
read_cells src offset zero = []
read_cells src offset (suc n) = src offset ∷ read_cells src (suc offset) n

pub write_cells-append :
    (dest : ℕ → ℕ) (offset : ℕ) (xs ys : List ℕ) (i : ℕ)
    → offset + length xs ≤ i
    → write_cells dest offset (xs ++ ys) i ≡ write_cells dest (offset + length xs) ys i
unfolding write_cells
write_cells-append dest offset [] ys i h = ground arith
write_cells-append dest offset (x ∷ xs) ys i h =
    ground (arith, write_cells-append dest (suc offset) xs ys i)

pub write_cells-first :
    (dest : ℕ → ℕ) (offset : ℕ) (x : ℕ) (xs : List ℕ) → write_cells dest offset (x ∷ xs) offset ≡ x
unfolding write_cells
write_cells-first dest offset x xs = ground arith

pub write_cells-later :
    (dest : ℕ → ℕ) (offset : ℕ) (x : ℕ) (xs : List ℕ) (i : ℕ)
    → suc offset ≤ i
    → write_cells dest offset (x ∷ xs) i ≡ write_cells dest (suc offset) xs i
unfolding write_cells
write_cells-later dest offset x xs i h = ground arith

pub read_cells-agree :
    (src src' : ℕ → ℕ) (offset n : ℕ)
    → ((i : ℕ) → offset ≤ i → src i ≡ src' i)
    → read_cells src offset n ≡ read_cells src' offset n
unfolding read_cells
read_cells-agree src src' offset zero h = refl
read_cells-agree src src' offset (suc n) h =
    rw (h offset (omega arith), read_cells-agree src src' (suc offset) n (λ i k. h i (omega arith)))

-- What was written at the front is read back.
pub read_cells-write_cells :
    (dest : ℕ → ℕ) (offset : ℕ) (xs ys : List ℕ)
    → read_cells (write_cells dest offset (xs ++ ys)) offset (length xs) ≡ xs
unfolding read_cells
read_cells-write_cells dest offset [] ys = refl
read_cells-write_cells dest offset (x ∷ xs) ys = rw (
  write_cells-first dest offset x (xs ++ ys),
  read_cells-agree (write_cells dest offset (x ∷ (xs ++ ys)))
      (write_cells dest (suc offset) (xs ++ ys)) (suc offset) (length xs)
      (write_cells-later dest offset x (xs ++ ys)),
  read_cells-write_cells dest (suc offset) xs ys,
)

-- The list stands in the memory from the offset on.
abbrev pub Holds : (ℕ → ℕ) → ℕ → List ℕ → Type 0
Holds src offset [] = Unit
Holds src offset (x ∷ xs) = (src offset ≡ x) × Holds src (suc offset) xs

pub Holds-append :
    (src : ℕ → ℕ) (offset : ℕ) (xs ys : List ℕ)
    → Holds src offset (xs ++ ys)
    → Holds src offset xs × Holds src (offset + length xs) ys
Holds-append src offset [] ys h = (tt, subst (λ i. Holds src i ys) (omega arith) h)
Holds-append src offset (x ∷ xs) ys h =
    let r = Holds-append src (suc offset) xs ys h.1 in
    ((h.0, r.0), subst (λ i. Holds src i ys) (omega arith) r.1)

pub Holds-moved : (src : ℕ → ℕ) {i j : ℕ} (xs : List ℕ) → i ≡ j → Holds src i xs → Holds src j xs
Holds-moved src xs e h = subst (λ k. Holds src k xs) e h

pub Holds-agree :
    (src src' : ℕ → ℕ) (offset : ℕ) (xs : List ℕ)
    → ((i : ℕ) → offset ≤ i → src i ≡ src' i)
    → Holds src offset xs
    → Holds src' offset xs
Holds-agree src src' offset [] h k = tt
Holds-agree src src' offset (x ∷ xs) h k = (
  ground (arith, h offset, k.0),
  Holds-agree src src' (suc offset) xs (λ i l. h i (omega arith)) k.1,
)

pub read_cells-Holds :
    (src : ℕ → ℕ) (offset : ℕ) (xs : List ℕ)
    → Holds src offset xs
    → read_cells src offset (length xs) ≡ xs
unfolding read_cells
read_cells-Holds src offset [] h = refl
read_cells-Holds src offset (x ∷ xs) h = rw (h.0, read_cells-Holds src (suc offset) xs h.1)

pub write_cells-Holds :
    (dest : ℕ → ℕ) (offset : ℕ) (xs : List ℕ) → Holds (write_cells dest offset xs) offset xs
write_cells-Holds dest offset [] = tt
write_cells-Holds dest offset (x ∷ xs) = (
  write_cells-first dest offset x xs,
  Holds-agree (write_cells dest (suc offset) xs) (write_cells dest offset (x ∷ xs)) (suc offset) xs
      (λ i k. sym (write_cells-later dest offset x xs i k))
      (write_cells-Holds dest (suc offset) xs),
)

pub length-read_cells : (src : ℕ → ℕ) (offset n : ℕ) → length (read_cells src offset n) ≡ n
unfolding read_cells
length-read_cells src offset zero = refl
length-read_cells src offset (suc n) = ground (arith, length-read_cells src (suc offset) n)

write_cells-before :
    (dest : ℕ → ℕ) (offset : ℕ) (xs : List ℕ) (i : ℕ)
    → i < offset
    → write_cells dest offset xs i ≡ dest i
unfolding write_cells
write_cells-before dest offset [] i h = refl
write_cells-before dest offset (x ∷ xs) i h =
    ground (arith, write_cells-before dest (suc offset) xs i)

-- What was written behind the first `n` cells is read after them.
pub read_cells-written :
    (dest : ℕ → ℕ) (i n offset : ℕ) (xs : List ℕ)
    → offset ≡ i + n
    → read_cells (write_cells dest offset xs) i (n + length xs) ≡ read_cells dest i n ++ xs
unfolding read_cells
read_cells-written dest i zero offset xs e =
    let at : offset ≡ i = omega (arith, e) in
    let none_more : 0 + length xs ≡ length xs = omega arith in
    rw (at, none_more) (read_cells-Holds (write_cells dest i xs) i xs (write_cells-Holds dest i xs))
read_cells-written dest i (suc n) offset xs e =
    let one_more : suc n + length xs ≡ suc (n + length xs) = omega arith in
    rw
      (
        one_more,
        write_cells-before dest offset xs i (omega (arith, e)),
        read_cells-written dest (suc i) n offset xs (omega (arith, e)),
      )
      refl
