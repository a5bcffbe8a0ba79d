-- ===== src/Recovery/LogRecord.antt =====
-- The log records of rmdb/src/recovery/log_defs.h and log_manager.h and their form in the log. An
-- integer is its bit pattern, of 32 bits for an int, an lsn_t, a page number and a slot number and
-- of 64 for a txn_id_t and a size_t, so -1 is the pattern of ones. A record's data and a table's
-- name are lists of bytes, as long as their sizes say.
pub mod Pieces
pub mod RoundTrip
pub mod Fields
use aidv.Prelude.{
  ℕ, zero, suc, ◌+◌, ◌-◌, ◌*◌, ◌/◌, ◌%◌, ◌^◌, ◌≡◌, Option, none, some, List, [], ◌∷◌, ◌++◌, ◌==◌,
  if◌then◌else◌, length,
}
use aidv.Prelude.Memory.{write_cells, read_cells}
use aidv.Index.Node.{Rid}

-- The bytes of an integer, the lowest first.
abbrev pub le_bytes : ℕ → ℕ → List ℕ
le_bytes zero n = []
le_bytes (suc w) n = (n % 256) ∷ le_bytes w (n / 256)

abbrev pub le_value : List ℕ → ℕ
le_value [] = 0
le_value (b ∷ bs) = b + 256 * le_value bs

unfoldable pub int_bytes : ℕ → List ℕ
int_bytes = le_bytes 4

unfoldable pub long_bytes : ℕ → List ℕ
long_bytes = le_bytes 8

pub int_at : (ℕ → ℕ) → ℕ → ℕ
int_at src offset = le_value (read_cells src offset 4)

pub long_at : (ℕ → ℕ) → ℕ → ℕ
long_at src offset = le_value (read_cells src offset 8)

pub data LogType : Type 0 where
  update insert delete begin commit abort : LogType

-- The numbers of the enumeration.
abbrev pub type_code : LogType → ℕ
type_code update = 0
type_code insert = 1
type_code delete = 2
type_code begin = 3
type_code commit = 4
type_code abort = 5

abbrev pub invalid_lsn : ℕ
invalid_lsn = 2 ^ 32 - 1

abbrev pub offset_lsn : ℕ
offset_lsn = 4

abbrev pub offset_log_tot_len : ℕ
offset_log_tot_len = offset_lsn + 4

abbrev pub offset_log_tid : ℕ
offset_log_tid = offset_log_tot_len + 4

abbrev pub offset_prev_lsn : ℕ
offset_prev_lsn = offset_log_tid + 8

abbrev pub offset_log_data : ℕ
offset_log_data = offset_prev_lsn + 4

-- The members of `LogRecord`.
pub record LogHeader : Type 0 where
  pub log_type : ℕ
  pub lsn : ℕ
  pub log_tot_len : ℕ
  pub log_tid : ℕ
  pub prev_lsn : ℕ

-- The members that each subclass adds. `other` is what `LogRecord` itself reads.
pub data LogBody : Type 0 where
  other : LogBody
  insert : List ℕ → Rid → List ℕ → LogBody
  delete : List ℕ → Rid → List ℕ → LogBody
  update : List ℕ → List ℕ → Rid → List ℕ → LogBody

pub record LogRecord : Type 0 where
  pub header : LogHeader
  pub body : LogBody

abbrev pub new_header : LogType → ℕ → ℕ → LogHeader
new_header log_type log_tid len = record {
  log_type = type_code log_type;
  lsn = invalid_lsn;
  log_tot_len = len % 2 ^ 32;
  log_tid = log_tid;
  prev_lsn = invalid_lsn;
}

unfoldable pub begin_log_record : ℕ → LogRecord
begin_log_record txn_id = record {
  header = new_header LogType.begin txn_id offset_log_data;
  body = other;
}

pub commit_log_record : ℕ → LogRecord
commit_log_record txn_id = record {
  header = new_header LogType.commit txn_id offset_log_data;
  body = other;
}

pub abort_log_record : ℕ → LogRecord
abort_log_record txn_id = record {
  header = new_header LogType.abort txn_id offset_log_data;
  body = other;
}

unfoldable pub insert_log_record : ℕ → List ℕ → Rid → List ℕ → LogRecord
insert_log_record txn_id value rid table_name = record {
  header =
      new_header LogType.insert txn_id
        (offset_log_data + 4 + length value + 8 + (8 + length table_name));
  body = LogBody.insert value rid table_name;
}

pub delete_log_record : ℕ → List ℕ → Rid → List ℕ → LogRecord
delete_log_record txn_id value rid table_name = record {
  header =
      new_header LogType.delete txn_id
        (offset_log_data + 4 + length value + 8 + (8 + length table_name));
  body = LogBody.delete value rid table_name;
}

pub update_log_record : ℕ → List ℕ → List ℕ → Rid → List ℕ → LogRecord
update_log_record txn_id old_value new_value rid table_name = record {
  header =
      new_header LogType.update txn_id (
        offset_log_data
        + 4
        + length old_value
        + 4
        + length new_value
        + 8
        + (8 + length table_name));
  body = LogBody.update old_value new_value rid table_name;
}

-- The copies of `LogRecord::serialize`.
unfoldable pub header_bytes : LogHeader → List ℕ
header_bytes h =
    int_bytes h.log_type
    ++ (int_bytes h.lsn
        ++ (int_bytes h.log_tot_len ++ (long_bytes h.log_tid ++ int_bytes h.prev_lsn)))

unfoldable pub value_bytes : List ℕ → List ℕ
value_bytes value = int_bytes (length value) ++ value

-- The record id and the table's name, which end each record of a change.
unfoldable pub place_bytes : Rid → List ℕ → List ℕ
place_bytes rid table_name =
    int_bytes rid.page_no
    ++ (int_bytes rid.slot_no ++ (long_bytes (length table_name) ++ table_name))

unfoldable pub body_bytes : LogBody → List ℕ
body_bytes other = []
body_bytes (LogBody.insert value rid table_name) = value_bytes value ++ place_bytes rid table_name
body_bytes (LogBody.delete value rid table_name) = value_bytes value ++ place_bytes rid table_name
body_bytes (LogBody.update old_value new_value rid table_name) =
    value_bytes old_value ++ (value_bytes new_value ++ place_bytes rid table_name)

unfoldable pub record_bytes : LogRecord → List ℕ
record_bytes r = header_bytes r.header ++ body_bytes r.body

unfoldable pub serialize : LogRecord → (ℕ → ℕ) → ℕ → ℕ → ℕ
serialize r buffer offset = write_cells buffer offset (record_bytes r)

-- `LogRecord::deserialize`; `src` is the address in the buffer.
pub deserialize_header : (ℕ → ℕ) → ℕ → LogHeader
deserialize_header buffer src = record {
  log_type = int_at buffer src;
  lsn = int_at buffer (src + offset_lsn);
  log_tot_len = int_at buffer (src + offset_log_tot_len);
  log_tid = long_at buffer (src + offset_log_tid);
  prev_lsn = int_at buffer (src + offset_prev_lsn);
}

-- `RmRecord::Deserialize`
pub value_at : (ℕ → ℕ) → ℕ → List ℕ
value_at buffer src = read_cells buffer (src + 4) (int_at buffer src)

pub rid_at : (ℕ → ℕ) → ℕ → Rid
rid_at buffer src = record { page_no = int_at buffer src; slot_no = int_at buffer (src + 4) }

pub table_name_at : (ℕ → ℕ) → ℕ → List ℕ
table_name_at buffer src = read_cells buffer (src + 8) (long_at buffer src)

pub deserialize_insert : (ℕ → ℕ) → ℕ → LogBody
deserialize_insert buffer src =
    let value = value_at buffer (src + offset_log_data) in
    let offset = src + offset_log_data + length value + 4 in
    LogBody.insert value (rid_at buffer offset) (table_name_at buffer (offset + 8))

pub deserialize_delete : (ℕ → ℕ) → ℕ → LogBody
deserialize_delete buffer src =
    let value = value_at buffer (src + offset_log_data) in
    let offset = src + offset_log_data + length value + 4 in
    LogBody.delete value (rid_at buffer offset) (table_name_at buffer (offset + 8))

pub deserialize_update : (ℕ → ℕ) → ℕ → LogBody
deserialize_update buffer src =
    let old_value = value_at buffer (src + offset_log_data) in
    let offset = src + offset_log_data + length old_value + 4 in
    let new_value = value_at buffer offset in
    let offset' = offset + (length new_value + 4) in
    LogBody.update old_value new_value (rid_at buffer offset') (table_name_at buffer (offset' + 8))

-- The record of the class that the type in the buffer tells, as the recovery reads it.
pub deserialize : (ℕ → ℕ) → ℕ → LogRecord
deserialize buffer src =
    let header = deserialize_header buffer src in
    if header.log_type == type_code LogType.insert
    then record { header = header; body = deserialize_insert buffer src }
    else if header.log_type == type_code LogType.delete
    then record { header = header; body = deserialize_delete buffer src }
    else if header.log_type == type_code LogType.update
    then record { header = header; body = deserialize_update buffer src }
    else record { header = header; body = other }
