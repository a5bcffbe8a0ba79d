-- ===== src/Recovery/LogRecord/Pieces.antt =====
-- What the recovery reads where a piece of a log record was written: an integer, a value, a place.
use aidv.Prelude.{ℕ, ◌+◌, ◌^◌, ◌<◌, ◌≡◌, refl, List, ◌++◌, length, length-append, arith, ap}
use aidv.Prelude.Memory.{Holds, Holds-append, Holds-moved, read_cells-Holds}
use aidv.Index.Node.{Rid}
use aidv.Recovery.LogRecord.{
  le_bytes, le_value, int_bytes, long_bytes, int_at, long_at, value_bytes, place_bytes, value_at,
  rid_at, table_name_at,
}

int_bytes_value : (n : ℕ) → n < 2 ^ 32 → le_value (le_bytes 4 n) ≡ n
int_bytes_value n h = omega arith

long_bytes_value : (n : ℕ) → n < 2 ^ 64 → le_value (le_bytes 8 n) ≡ n
long_bytes_value n h = omega arith

pub length-int_bytes : (n : ℕ) → length (int_bytes n) ≡ 4
unfolding int_bytes
length-int_bytes n = refl

pub length-long_bytes : (n : ℕ) → length (long_bytes n) ≡ 8
unfolding long_bytes
length-long_bytes n = refl

pub int_at-Holds :
    (src : ℕ → ℕ) (i n : ℕ) → n < 2 ^ 32 → Holds src i (int_bytes n) → int_at src i ≡ n
unfolding int_at int_bytes
int_at-Holds src i n k h = rw (read_cells-Holds src i (le_bytes 4 n) h) (int_bytes_value n k)

pub long_at-Holds :
    (src : ℕ → ℕ) (i n : ℕ) → n < 2 ^ 64 → Holds src i (long_bytes n) → long_at src i ≡ n
unfolding long_at long_bytes
long_at-Holds src i n k h = rw (read_cells-Holds src i (le_bytes 8 n) h) (long_bytes_value n k)

-- The first integer of what stands there, and what stands behind it.
pub int-split :
    (src : ℕ → ℕ) (i n : ℕ) (xs : List ℕ)
    → n < 2 ^ 32
    → Holds src i (int_bytes n ++ xs)
    → (int_at src i ≡ n) × Holds src (i + 4) xs
int-split src i n xs k h =
    let r = Holds-append src i (int_bytes n) xs h in
    (
      int_at-Holds src i n k r.0,
      Holds-moved src xs (ap (λ (l : ℕ). i + l) (length-int_bytes n)) r.1,
    )

pub long-split :
    (src : ℕ → ℕ) (i n : ℕ) (xs : List ℕ)
    → n < 2 ^ 64
    → Holds src i (long_bytes n ++ xs)
    → (long_at src i ≡ n) × Holds src (i + 8) xs
long-split src i n xs k h =
    let r = Holds-append src i (long_bytes n) xs h in
    (
      long_at-Holds src i n k r.0,
      Holds-moved src xs (ap (λ (l : ℕ). i + l) (length-long_bytes n)) r.1,
    )

pub value-split :
    (src : ℕ → ℕ) (i : ℕ) (value xs : List ℕ)
    → length value < 2 ^ 32
    → Holds src i (value_bytes value ++ xs)
    → (value_at src i ≡ value) × Holds src (i + length value + 4) xs
unfolding value_at value_bytes
value-split src i value xs k h =
    let r = Holds-append src i (int_bytes (length value) ++ value) xs h in
    let q = int-split src i (length value) value k r.0 in
    (
      rw q.0 (read_cells-Holds src (i + 4) value q.1),
      Holds-moved src xs
          (omega (
            arith,
            length-append (int_bytes (length value)) value,
            length-int_bytes (length value),
          ))
          r.1,
    )

-- The numbers of the record fit their fields.
abbrev pub RidFits : Rid → Type 0
RidFits rid = (rid.page_no < 2 ^ 32) × (rid.slot_no < 2 ^ 32)

pub place_lem :
    (src : ℕ → ℕ) (i : ℕ) (rid : Rid) (name : List ℕ)
    → RidFits rid
    → length name < 2 ^ 64
    → Holds src i (place_bytes rid name)
    → (rid_at src i ≡ rid) × (table_name_at src (i + 8) ≡ name)
unfolding place_bytes rid_at table_name_at
place_lem src i rid name f k h =
    let p = int-split src i rid.page_no _ f.0 h in
    let s = int-split src (i + 4) rid.slot_no _ f.1 p.1 in
    let n = long-split src (i + 4 + 4) (length name) name k s.1 in
    let at : i + 4 + 4 ≡ i + 8 = omega arith in
    (rw (p.0, s.0) refl, rw (← at) (rw n.0 (read_cells-Holds src (i + 4 + 4 + 8) name n.1)))
