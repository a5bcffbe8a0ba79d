-- ===== src/Index/FileHeader.antt =====
-- `IxFileHdr` of rmdb/src/index/ix_defs.h and its form on the header page. An int, a page_id_t and a
-- ColType are one word of 4 bytes each, whatever its sign, and an offset counts words.
pub mod RoundTrip
use aidv.Prelude.{
  ℕ, zero, suc, ◌+◌, ◌*◌, ◌≤◌, ◌≡◌, refl, Option, none, some, List, [], ◌∷◌, ◌++◌, arith, ◌==◌,
  if◌then◌else◌, length, length-append, take, sym, ap, ◌∙◌,
}
use aidv.Prelude.Memory.{write_cells, read_cells}

pub record IxFileHdr : Type 0 where
  pub first_free_page_no : ℕ
  pub num_pages : ℕ
  pub root_page : ℕ
  pub col_num : ℕ
  pub col_types : List ℕ
  pub col_lens : List ℕ
  pub col_tot_len : ℕ
  pub btree_order : ℕ
  pub keys_size : ℕ
  pub first_leaf : ℕ
  pub last_leaf : ℕ
  pub tot_len : ℕ

unfoldable pub update_tot_len : IxFileHdr → IxFileHdr
update_tot_len h = record h { tot_len = 4 * 4 + 4 * 6 + (4 * h.col_num + 4 * h.col_num) }

abbrev pub tail_fields : IxFileHdr → List ℕ
tail_fields h = h.col_tot_len ∷ h.btree_order ∷ h.keys_size ∷ h.first_leaf ∷ h.last_leaf ∷ []

-- The fields in the order of the copies.
abbrev pub fields : IxFileHdr → List ℕ
fields h =
    (h.tot_len ∷ h.first_free_page_no ∷ h.num_pages ∷ h.root_page ∷ h.col_num ∷ [])
    ++ (take h.col_num h.col_types ++ (take h.col_num h.col_lens ++ tail_fields h))

-- The number of bytes that the copies have gone over at the end.
abbrev pub end_offset : ℕ → ℕ
end_offset col_num = 4 * (5 + col_num + col_num + 5)

-- `none` is a failed assertion.
pub serialize : IxFileHdr → (ℕ → ℕ) → Option (ℕ → ℕ)
serialize h dest =
    if end_offset h.col_num == h.tot_len then some (write_cells dest 0 (fields h)) else none

-- The columns go behind those that the header has.
pub deserialize : IxFileHdr → (ℕ → ℕ) → Option IxFileHdr
deserialize h src =
    let col_num = src 4 in
    let offset = 5 + col_num + col_num in
    let read : IxFileHdr = record {
      tot_len = src 0;
      first_free_page_no = src 1;
      num_pages = src 2;
      root_page = src 3;
      col_num = col_num;
      col_types = h.col_types ++ read_cells src 5 col_num;
      col_lens = h.col_lens ++ read_cells src (5 + col_num) col_num;
      col_tot_len = src offset;
      btree_order = src (offset + 1);
      keys_size = src (offset + 2);
      first_leaf = src (offset + 3);
      last_leaf = src (offset + 4);
    } in
    if end_offset col_num == src 0 then some read else none
