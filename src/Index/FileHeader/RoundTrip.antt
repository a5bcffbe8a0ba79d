-- ===== src/Index/FileHeader/RoundTrip.antt =====
-- What `deserialize` reads of the words that `serialize` has written.
use aidv.Prelude.{ℕ, ◌+◌, ◌≡◌, Option, none, some, length}
use aidv.Prelude.Memory.{write_cells}
use aidv.Index.FileHeader.{IxFileHdr, fields, serialize, deserialize}

module _ (h : IxFileHdr) (dest : ℕ → ℕ) (types : length h.col_types ≡ h.col_num)
    (lens : length h.col_lens ≡ h.col_num) where
  abbrev written : ℕ → ℕ
  written = write_cells dest 0 (fields h)

  abbrev tail_at : ℕ
  tail_at = 5 + h.col_num + h.col_num

-- A header is written and then read in by one that has no columns yet.
abbrev pub read_back : IxFileHdr → IxFileHdr → (ℕ → ℕ) → Option IxFileHdr
read_back base h dest = elim (serialize h dest) [ none ↦ none | some src ↦ deserialize base src ]
