-- ===== src/Index/Compare/Codes.antt =====
-- `ix_compare` of keys without floats is the order of lists of numbers.
use aidv.Prelude.{
  ℕ, zero, suc, ◌*◌, ◌<◌, ◌≡◌, refl, subst, Bool, true, false, ◌&&◌, List, [], ◌∷◌, ◌++◌, ltb, ◌==◌,
  take, drop, arith,
}
use aidv.Recovery.LogRecord.{le_value}
use aidv.Recovery.Analysis.{rank}
use aidv.Index.Compare.{
  ColType, type_int, type_float, type_string, Sign, below, same, over, sign_of, memcmp,
  compare_column, ix_compare,
}

-- The lists of numbers in the order of their first difference.
abbrev pub lex : List ℕ → List ℕ → Sign
lex [] [] = same
lex [] (y ∷ ys) = below
lex (x ∷ xs) [] = over
lex (x ∷ xs) (y ∷ ys) = elim (sign_of x y) [ below ↦ below | over ↦ over | same ↦ lex xs ys ]

abbrev pub is_below : Sign → Bool
is_below below = true
is_below _ = false

abbrev pub is_same : Sign → Bool
is_same same = true
is_same _ = false

pub lex_self : (xs : List ℕ) → lex xs xs ≡ same
lex_self [] = refl
lex_self (x ∷ xs) = ground (arith, lex_self xs)

pub lex_equal : (xs ys : List ℕ) → is_same (lex xs ys) ≡ true → xs ≡ ys
lex_equal [] [] h = refl
lex_equal [] (y ∷ ys) h = absurd cc
lex_equal (x ∷ xs) [] h = absurd cc
lex_equal (x ∷ xs) (y ∷ ys) h = ground (arith, lex_equal xs ys)

pub lex_total :
    (xs ys : List ℕ)
    → is_below (lex xs ys) ≡ false
    → is_same (lex xs ys) ≡ false
    → is_below (lex ys xs) ≡ true
lex_total [] [] h k = absurd cc
lex_total [] (y ∷ ys) h k = absurd cc
lex_total (x ∷ xs) [] h k = refl
lex_total (x ∷ xs) (y ∷ ys) h k = ground (arith, lex_total xs ys)

pub lex_trans :
    (xs ys zs : List ℕ)
    → is_below (lex xs ys) ≡ true
    → is_below (lex ys zs) ≡ true
    → is_below (lex xs zs) ≡ true
lex_trans [] [] zs h k = absurd cc
lex_trans [] (y ∷ ys) [] h k = absurd cc
lex_trans [] (y ∷ ys) (z ∷ zs) h k = refl
lex_trans (x ∷ xs) [] zs h k = absurd cc
lex_trans (x ∷ xs) (y ∷ ys) [] h k = absurd cc
lex_trans (x ∷ xs) (y ∷ ys) (z ∷ zs) h k = ground (arith, lex_trans xs ys zs)

-- So many bytes are there.
abbrev pub has_bytes : ℕ → List ℕ → Bool
has_bytes zero a = true
has_bytes (suc n) [] = false
has_bytes (suc n) (x ∷ a) = ltb x 256 && has_bytes n a

-- The bytes of a key of these columns, none of which is a float.
abbrev pub is_key : List (ColType × ℕ) → List ℕ → Bool
is_key [] [] = true
is_key [] (x ∷ a) = false
is_key ((type_int, col_len) ∷ cols) a =
    col_len == 4 && (has_bytes 4 a && is_key cols (drop col_len a))
is_key ((type_float, col_len) ∷ cols) a = false
is_key ((type_string, col_len) ∷ cols) a = has_bytes col_len a && is_key cols (drop col_len a)

-- The numbers whose order counts: an int is one, and a string is its bytes.
abbrev pub code : List (ColType × ℕ) → List ℕ → List ℕ
code [] a = []
code ((type_string, col_len) ∷ cols) a = take col_len a ++ code cols (drop col_len a)
code ((_, col_len) ∷ cols) a = rank (le_value (take 4 a)) ∷ code cols (drop col_len a)

abbrev after : Sign → Sign → Sign
after s rest = elim s [ below ↦ below | over ↦ over | same ↦ rest ]

memcmp-lex :
    (n : ℕ) (a b xs ys : List ℕ)
    → has_bytes n a ≡ true
    → has_bytes n b ≡ true
    → lex (take n a ++ xs) (take n b ++ ys) ≡ after (memcmp n a b) (lex xs ys)
memcmp-lex zero a b xs ys h k = refl
memcmp-lex (suc n) [] b xs ys h k = absurd cc
memcmp-lex (suc n) (x ∷ a) [] xs ys h k = absurd cc
memcmp-lex (suc n) (x ∷ a) (y ∷ b) xs ys h k = ground (arith, memcmp-lex n a b xs ys)

pub ix_compare-lex :
    (f : List ℕ → List ℕ → Sign) (cols : List (ColType × ℕ)) (a b : List ℕ)
    → is_key cols a ≡ true
    → is_key cols b ≡ true
    → ix_compare f cols a b ≡ lex (code cols a) (code cols b)
unfolding ix_compare compare_column
ix_compare-lex f [] a b h k = refl
ix_compare-lex f ((type_int, n) ∷ cols) a b h k =
    ground (arith, ix_compare-lex f cols (drop n a) (drop n b))
ix_compare-lex f ((type_float, n) ∷ cols) a b h k = absurd cc
ix_compare-lex f ((type_string, n) ∷ cols) a b h k = ground (
  arith,
  memcmp-lex n a b (code cols (drop n a)) (code cols (drop n b)),
  ix_compare-lex f cols (drop n a) (drop n b),
)

-- The codes tell two keys apart.
take_equal :
    (n : ℕ) (a b xs ys : List ℕ)
    → has_bytes n a ≡ true
    → has_bytes n b ≡ true
    → take n a ++ xs ≡ take n b ++ ys
    → (xs ≡ ys) × (drop n a ≡ drop n b → a ≡ b)
take_equal zero a b xs ys h k e = (e, λ d. d)
take_equal (suc n) [] b xs ys h k e = absurd cc
take_equal (suc n) (x ∷ a) [] xs ys h k e = absurd cc
take_equal (suc n) (x ∷ a) (y ∷ b) xs ys h k e =
    let r = take_equal n a b xs ys (ground (arith, h)) (ground (arith, k)) (ground (arith, e)) in
    (r.0, λ d. ground (arith, r.1 d, e))

abbrev limit : ℕ → ℕ
limit zero = 1
limit (suc n) = 256 * limit n

le_value-lt-limit : (n : ℕ) (a : List ℕ) → has_bytes n a ≡ true → le_value (take n a) < limit n
le_value-lt-limit zero a h = omega arith
le_value-lt-limit (suc n) [] h = absurd cc
le_value-lt-limit (suc n) (x ∷ a) h =
    let small : x < 256 = ground (arith, h) in
    omega (arith, le_value-lt-limit n a (ground (arith, h)))

le_equal :
    (n : ℕ) (a b : List ℕ)
    → has_bytes n a ≡ true
    → has_bytes n b ≡ true
    → le_value (take n a) ≡ le_value (take n b)
    → drop n a ≡ drop n b
    → a ≡ b
le_equal zero a b h k e d = d
le_equal (suc n) [] b h k e d = absurd cc
le_equal (suc n) (x ∷ a) [] h k e d = absurd cc
le_equal (suc n) (x ∷ a) (y ∷ b) h k e d =
    let x_small : x < 256 = ground (arith, h) in
    let y_small : y < 256 = ground (arith, k) in
    let first : x ≡ y = omega (arith, e) in
    let rest : le_value (take n a) ≡ le_value (take n b) = omega (arith, e, first) in
    rw (first, le_equal n a b (ground (arith, h)) (ground (arith, k)) rest d) refl

rank_equal : (a b : ℕ) → a < limit 4 → b < limit 4 → rank a ≡ rank b → a ≡ b
rank_equal a b h k e = omega arith

pub code_equal :
    (cols : List (ColType × ℕ)) (a b : List ℕ)
    → is_key cols a ≡ true
    → is_key cols b ≡ true
    → code cols a ≡ code cols b
    → a ≡ b
code_equal [] [] [] h k e = refl
code_equal [] [] (y ∷ b) h k e = absurd cc
code_equal [] (x ∷ a) b h k e = absurd cc
code_equal ((type_int, n) ∷ cols) a b h k e =
    let four : n ≡ 4 = ground (arith, h) in
    let ha : has_bytes 4 a ≡ true = ground (arith, h) in
    let hb : has_bytes 4 b ≡ true = ground (arith, k) in
    let rest : drop n a ≡ drop n b =
      code_equal cols (drop n a) (drop n b) (ground (arith, h)) (ground (arith, k))
        (ground (arith, e)) in
    let ranks : rank (le_value (take 4 a)) ≡ rank (le_value (take 4 b)) = ground (arith, e) in
    le_equal 4 a b ha hb
      (rank_equal (le_value (take 4 a)) (le_value (take 4 b)) (le_value-lt-limit 4 a ha)
        (le_value-lt-limit 4 b hb) ranks)
      (subst (λ m. drop m a ≡ drop m b) four rest)
code_equal ((type_float, n) ∷ cols) a b h k e = absurd cc
code_equal ((type_string, n) ∷ cols) a b h k e =
    let r =
      take_equal n a b (code cols (drop n a)) (code cols (drop n b)) (ground (arith, h))
        (ground (arith, k)) e in
    r.1 (code_equal cols (drop n a) (drop n b) (ground (arith, h)) (ground (arith, k)) r.0)
