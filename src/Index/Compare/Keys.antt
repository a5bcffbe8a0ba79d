-- ===== src/Index/Compare/Keys.antt =====
-- The order of `ix_compare` on the keys of columns without floats, as the order that a leaf uses.
use aidv.Prelude.{ℕ, ◌≡◌, ap, sym, ◌∙◌, subst, true, List}
use aidv.Index.Node.{KeyOrder}
use aidv.Index.Compare.{ColType, Sign, ix_compare}
use aidv.Index.Compare.Codes.{
  is_below, is_same, is_key, code, lex, lex_self, lex_equal, lex_total, lex_trans, ix_compare-lex,
  code_equal,
}

module _ (float_sign : List ℕ → List ℕ → Sign) (cols : List (ColType × ℕ)) where
  -- The bytes of a key.
  abbrev pub ColumnKey : Type 0
  ColumnKey = (bytes : List ℕ) × (is_key cols bytes ≡ true)

  pub compare_lem :
      (a b : ColumnKey) → ix_compare float_sign cols a.0 b.0 ≡ lex (code cols a.0) (code cols b.0)
  compare_lem a b = ix_compare-lex float_sign cols a.0 b.0 a.1 b.1

  same_proof : (bytes : List ℕ) (h k : is_key cols bytes ≡ true) → h ≡ k
  same_proof bytes h k = hlevel

  pub same_key : (a b : ColumnKey) → a.0 ≡ b.0 → a ≡ b
  same_key (x, h) (y, k) e =
      subst (λ (z : List ℕ). (l : is_key cols z ≡ true) → Path ColumnKey (x, h) (z, l)) e
        (λ l. ap (λ (p : is_key cols x ≡ true). (x, p)) (same_proof x h l)) k

  -- `ix_compare(a, b) < 0` and `ix_compare(a, b) == 0`
  abbrev pub column_order : KeyOrder
  column_order = record {
    Key = ColumnKey;
    lt = λ a b. is_below (ix_compare float_sign cols a.0 b.0);
    eq = λ a b. is_same (ix_compare float_sign cols a.0 b.0);
    eq_iff = λ a b h. same_key a b (
        code_equal cols a.0 b.0 a.1 b.1
          (lex_equal (code cols a.0) (code cols b.0) (ap is_same (sym (compare_lem a b)) ∙ h)));
    eq_refl = λ a. ap is_same (compare_lem a a ∙ lex_self (code cols a.0));
    lt_irrefl = λ a. ap is_below (compare_lem a a ∙ lex_self (code cols a.0));
    lt_trans = λ a b c h k.
        ap is_below (compare_lem a c)
        ∙ lex_trans (code cols a.0) (code cols b.0) (code cols c.0)
            (ap is_below (sym (compare_lem a b)) ∙ h) (ap is_below (sym (compare_lem b c)) ∙ k);
    lt_total = λ a b h k.
        ap is_below (compare_lem b a)
        ∙ lex_total (code cols a.0) (code cols b.0) (ap is_below (sym (compare_lem a b)) ∙ h)
            (ap is_same (sym (compare_lem a b)) ∙ k);
  }
