-- ===== src/Recovery/LogRecord/Fields.antt =====
-- What stands at the places of a log record that the recovery reads one by one.
use aidv.Prelude.{ℕ, ◌+◌, ◌^◌, ◌<◌, ◌≡◌, List, ◌++◌, length, arith, ap}
use aidv.Prelude.Memory.{Holds, Holds-append, Holds-moved}
use aidv.Index.Node.{Rid}
use aidv.Recovery.LogRecord.{
  LogRecord, LogHeader, int_bytes, int_at, long_at, offset_lsn, offset_log_tid, offset_prev_lsn,
  offset_log_data, value_bytes, place_bytes, body_bytes, record_bytes, deserialize_header, rid_at,
}
use aidv.Recovery.LogRecord.RoundTrip.{RecordFits, header_lem}
use aidv.Recovery.LogRecord.Pieces.{RidFits, int-split, value-split, place_lem}

pub header_fields :
    (src : ℕ → ℕ) (i : ℕ) (r : LogRecord)
    → RecordFits r
    → Holds src i (record_bytes r)
    → (int_at src i ≡ r.header.log_type)
      × (int_at src (i + offset_lsn) ≡ r.header.lsn)
      × (long_at src (i + offset_log_tid) ≡ r.header.log_tid)
      × (int_at src (i + offset_prev_lsn) ≡ r.header.prev_lsn)
unfolding record_bytes deserialize_header
header_fields src i r f h =
    let e = (header_lem src i r.header (body_bytes r.body) f.header_fits h).0 in
    (
      ap (λ (d : LogHeader). d.log_type) e,
      ap (λ (d : LogHeader). d.lsn) e,
      ap (λ (d : LogHeader). d.log_tid) e,
      ap (λ (d : LogHeader). d.prev_lsn) e,
    )

pub body_Holds :
    (src : ℕ → ℕ) (i : ℕ) (r : LogRecord)
    → RecordFits r
    → Holds src i (record_bytes r)
    → Holds src (i + offset_log_data) (body_bytes r.body)
unfolding record_bytes
body_Holds src i r f h = (header_lem src i r.header (body_bytes r.body) f.header_fits h).1

size_lem :
    (src : ℕ → ℕ) (i : ℕ) (value xs : List ℕ)
    → length value < 2 ^ 32
    → Holds src i (value_bytes value ++ xs)
    → int_at src i ≡ length value
unfolding value_bytes
size_lem src i value xs k h =
    (int-split src i (length value) value k
      (Holds-append src i (int_bytes (length value) ++ value) xs h).0).0

-- Behind one value.
pub change_fields :
    (src : ℕ → ℕ) (i : ℕ) (value : List ℕ) (rid : Rid) (name : List ℕ)
    → length value < 2 ^ 32
    → RidFits rid
    → length name < 2 ^ 64
    → Holds src (i + offset_log_data) (value_bytes value ++ place_bytes rid name)
    → (int_at src (i + offset_log_data) ≡ length value)
      × (rid_at src (i + (offset_log_data + 4 + length value)) ≡ rid)
change_fields src i value rid name kv kr kn h =
    let v = (value-split src (i + offset_log_data) value (place_bytes rid name) kv h).1 in
    (
      size_lem src (i + offset_log_data) value (place_bytes rid name) kv h,
      (place_lem src (i + (offset_log_data + 4 + length value)) rid name kr kn
          (Holds-moved src (place_bytes rid name) (omega arith) v)).0,
    )

-- Behind two.
pub update_fields :
    (src : ℕ → ℕ) (i : ℕ) (old_value new_value : List ℕ) (rid : Rid) (name : List ℕ)
    → length old_value < 2 ^ 32
    → length new_value < 2 ^ 32
    → RidFits rid
    → length name < 2 ^ 64
    → Holds src
        (i + offset_log_data)
        (value_bytes old_value ++ (value_bytes new_value ++ place_bytes rid name))
    → (int_at src (i + offset_log_data) ≡ length old_value)
      × (int_at src (i + (offset_log_data + 4 + length old_value)) ≡ length new_value)
      × (rid_at src (i + (offset_log_data + 4 + length old_value + (4 + length new_value))) ≡ rid)
update_fields src i old_value new_value rid name ko kw kr kn h =
    let rest = value_bytes new_value ++ place_bytes rid name in
    let o =
      Holds-moved src {j = i + (offset_log_data + 4 + length old_value)} rest (omega arith)
        (value-split src (i + offset_log_data) old_value rest ko h).1 in
    let w =
      (value-split src (i + (offset_log_data + 4 + length old_value)) new_value
        (place_bytes rid name) kw o).1 in
    (
      size_lem src (i + offset_log_data) old_value rest ko h,
      size_lem src (i + (offset_log_data + 4 + length old_value)) new_value (place_bytes rid name)
          kw o,
      (place_lem src (i + (offset_log_data + 4 + length old_value + (4 + length new_value))) rid
          name kr kn (Holds-moved src (place_bytes rid name) (omega arith) w)).0,
    )
