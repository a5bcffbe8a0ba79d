-- ===== src/Recovery/LogRecord/RoundTrip.antt =====
-- What the recovery reads of a log record that was written.
use aidv.Prelude.{
  ℕ, ◌+◌, ◌^◌, ◌≤◌, ◌<◌, ◌≡◌, refl, List, ◌++◌, ◌==◌, if◌then◌else◌, length, length-append, arith,
  ap, ◌∙◌,
}
use aidv.Prelude.Memory.{write_cells, Holds, Holds-append, Holds-moved, write_cells-Holds}
use aidv.Index.Node.{Rid}
use aidv.Recovery.LogRecord.{
  LogRecord, LogHeader, LogBody, LogType, type_code, other, int_bytes, long_bytes, int_at,
  offset_log_tot_len, offset_log_data, header_bytes, value_bytes, place_bytes, body_bytes,
  record_bytes, serialize, deserialize_header, deserialize_insert, deserialize_delete,
  deserialize_update, deserialize,
}
use aidv.Recovery.LogRecord.Pieces.{
  int_at-Holds, int-split, long-split, value-split, RidFits, place_lem,
}

abbrev pub HeaderFits : LogHeader → Type 0
HeaderFits h =
    (h.log_type < 2 ^ 32)
    × (h.lsn < 2 ^ 32)
    × (h.log_tot_len < 2 ^ 32)
    × (h.log_tid < 2 ^ 64)
    × (h.prev_lsn < 2 ^ 32)

pub length-header_bytes : (h : LogHeader) → length (header_bytes h) ≡ 24
unfolding header_bytes int_bytes long_bytes
length-header_bytes h = refl

pub header_lem :
    (src : ℕ → ℕ) (i : ℕ) (h : LogHeader) (xs : List ℕ)
    → HeaderFits h
    → Holds src i (header_bytes h ++ xs)
    → (deserialize_header src i ≡ h) × Holds src (i + offset_log_data) xs
unfolding header_bytes deserialize_header
header_lem src i h xs f k =
    let r = Holds-append src i (header_bytes h) xs k in
    let t = int-split src i h.log_type _ f.0 r.0 in
    let l = int-split src (i + 4) h.lsn _ f.1 t.1 in
    let n = int-split src (i + 8) h.log_tot_len _ f.2 (Holds-moved src _ (omega arith) l.1) in
    let d = long-split src (i + 12) h.log_tid _ f.3 (Holds-moved src _ (omega arith) n.1) in
    let p = int_at-Holds src (i + 20) h.prev_lsn f.4 (Holds-moved src _ (omega arith) d.1) in
    (
      rw (t.0, l.0, n.0, d.0, p) refl,
      Holds-moved src xs (ap (λ (m : ℕ). i + m) (length-header_bytes h)) r.1,
    )

-- The class is the one that the type tells, and the sizes fit their fields.
abbrev pub BodyFits : ℕ → LogBody → Type 0
BodyFits log_type other = 2 < log_type
BodyFits log_type (LogBody.insert value rid name) =
    (log_type ≡ type_code LogType.insert)
    × (length value < 2 ^ 32)
    × RidFits rid
    × (length name < 2 ^ 64)
BodyFits log_type (LogBody.delete value rid name) =
    (log_type ≡ type_code LogType.delete)
    × (length value < 2 ^ 32)
    × RidFits rid
    × (length name < 2 ^ 64)
BodyFits log_type (LogBody.update old_value new_value rid name) =
    (log_type ≡ type_code LogType.update)
    × (length old_value < 2 ^ 32)
    × (length new_value < 2 ^ 32)
    × RidFits rid
    × (length name < 2 ^ 64)

pub record RecordFits (r : LogRecord) : Type 0 where
  pub header_fits : HeaderFits r.header
  pub body_fits : BodyFits r.header.log_type r.body

-- The body that the type of the header selects.
abbrev pub body_at : ℕ → (ℕ → ℕ) → ℕ → LogBody
body_at log_type src i =
    if log_type == type_code LogType.insert
    then deserialize_insert src i
    else if log_type == type_code LogType.delete
    then deserialize_delete src i
    else if log_type == type_code LogType.update
    then deserialize_update src i
    else other

deserialize-body_at :
    (src : ℕ → ℕ) (i : ℕ) (h : LogHeader)
    → deserialize_header src i ≡ h
    → deserialize src i ≡ record { header = h; body = body_at h.log_type src i }
unfolding deserialize
deserialize-body_at src i h e = rw e (ground arith)

insert_lem :
    (src : ℕ → ℕ) (i : ℕ) (value : List ℕ) (rid : Rid) (name : List ℕ)
    → length value < 2 ^ 32
    → RidFits rid
    → length name < 2 ^ 64
    → Holds src (i + offset_log_data) (value_bytes value ++ place_bytes rid name)
    → (deserialize_insert src i ≡ LogBody.insert value rid name)
      × (deserialize_delete src i ≡ LogBody.delete value rid name)
unfolding deserialize_insert deserialize_delete
insert_lem src i value rid name kv kr kn h =
    let v = value-split src (i + offset_log_data) value _ kv h in
    let p = place_lem src (i + offset_log_data + length value + 4) rid name kr kn v.1 in
    (rw (v.0, p.0, p.1) refl, rw (v.0, p.0, p.1) refl)

update_lem :
    (src : ℕ → ℕ) (i : ℕ) (old_value new_value : List ℕ) (rid : Rid) (name : List ℕ)
    → length old_value < 2 ^ 32
    → length new_value < 2 ^ 32
    → RidFits rid
    → length name < 2 ^ 64
    → Holds src
        (i + offset_log_data)
        (value_bytes old_value ++ (value_bytes new_value ++ place_bytes rid name))
    → deserialize_update src i ≡ LogBody.update old_value new_value rid name
unfolding deserialize_update
update_lem src i old_value new_value rid name ko kw kr kn h =
    let o = value-split src (i + offset_log_data) old_value _ ko h in
    let w = value-split src (i + offset_log_data + length old_value + 4) new_value _ kw o.1 in
    let at : i + offset_log_data + length old_value + 4 + length new_value + 4
        ≡ i + offset_log_data + length old_value + 4 + (length new_value + 4) =
      omega arith in
    let p =
      place_lem src (i + offset_log_data + length old_value + 4 + (length new_value + 4)) rid name
        kr kn (Holds-moved src (place_bytes rid name) at w.1) in
    rw (o.0, w.0, p.0, p.1) refl

body_lem :
    (src : ℕ → ℕ) (i log_type : ℕ) (body : LogBody)
    → BodyFits log_type body
    → Holds src (i + offset_log_data) (body_bytes body)
    → body_at log_type src i ≡ body
unfolding body_bytes
body_lem src i log_type other f h = ground arith
body_lem src i log_type (LogBody.insert value rid name) f h =
    rw (f.0) (insert_lem src i value rid name f.1 f.2 f.3 h).0
body_lem src i log_type (LogBody.delete value rid name) f h =
    rw (f.0) (insert_lem src i value rid name f.1 f.2 f.3 h).1
body_lem src i log_type (LogBody.update old_value new_value rid name) f h =
    rw (f.0) (update_lem src i old_value new_value rid name f.1 f.2 f.3 f.4 h)

-- What `deserialize` reads where the bytes of a record stand.
pub deserialize-Holds :
    (src : ℕ → ℕ) (i : ℕ) (r : LogRecord)
    → RecordFits r
    → Holds src i (record_bytes r)
    → deserialize src i ≡ r
unfolding record_bytes
deserialize-Holds src i r f h =
    let d = header_lem src i r.header (body_bytes r.body) f.header_fits h in
    deserialize-body_at src i r.header d.0
    ∙ ap (λ body. record { header = r.header; body = body })
        (body_lem src i r.header.log_type r.body f.body_fits d.1)

-- A log record whose numbers fit their fields and whose type is that of its class is read back from
-- where it was written, whatever stood in the buffer.
pub deserialize-serialize_log :
    (r : LogRecord) (buffer : ℕ → ℕ) (offset : ℕ)
    → RecordFits r
    → deserialize (serialize r buffer offset) offset ≡ r
unfolding serialize
deserialize-serialize_log r buffer offset f =
    deserialize-Holds (write_cells buffer offset (record_bytes r)) offset r f
      (write_cells-Holds buffer offset (record_bytes r))

pub length-record_bytes : (r : LogRecord) → 24 ≤ length (record_bytes r)
unfolding record_bytes
length-record_bytes r =
    omega (
      arith,
      length-append (header_bytes r.header) (body_bytes r.body),
      length-header_bytes r.header,
    )

pub log_tot_len_at :
    (buffer : ℕ → ℕ) (offset : ℕ) (r : LogRecord)
    → RecordFits r
    → Holds buffer offset (record_bytes r)
    → int_at buffer (offset + offset_log_tot_len) ≡ r.header.log_tot_len
unfolding record_bytes deserialize_header
log_tot_len_at buffer offset r f h =
    ap (λ (d : LogHeader). d.log_tot_len)
      (header_lem buffer offset r.header (body_bytes r.body) f.header_fits h).0
