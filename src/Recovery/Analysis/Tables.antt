-- ===== src/Recovery/Analysis/Tables.antt =====
-- What the tables of `analyze` hold.
use aidv.Prelude.{
  listed, listed-without, ℕ, ◌+◌, ◌^◌, ◌≤◌, ◌<◌, ◌≡◌, refl, Bool, true, false, ◌&&◌, ◌||◌, not,
  Option, none, some, List, [], ◌∷◌, ◌==◌, if◌then◌else◌, length, arith, ◌∙◌, ◌⊎◌, inl, inr,
  Bool-cases,
}
use aidv.Prelude.Assoc.{lookup, insert, lookup-insert}
use aidv.Prelude.Memory.{Holds, Holds-append}
use aidv.Record.{answers}
use aidv.Recovery.LogRecord.{LogRecord, LogType, type_code, record_bytes, deserialize, invalid_lsn}
use aidv.Recovery.LogRecord.RoundTrip.{deserialize-Holds}
use aidv.Recovery.Walk.{placed, LogFits, log_bytes}
use aidv.Recovery.Analysis.{Analysis, cleared, rank, later, switch, note, analyze}
use aidv.Recovery.Analysis.Loop.{note_record, note_all, analyze-note_all}

abbrev pub begins : ℕ → LogRecord → Bool
begins id r = r.header.log_type == type_code LogType.begin && r.header.log_tid == id

abbrev pub ends : ℕ → LogRecord → Bool
ends id r =
    (r.header.log_type == type_code LogType.commit || r.header.log_type == type_code LogType.abort)
    && r.header.log_tid == id

abbrev pub ended : ℕ → List (ℕ × LogRecord) → Bool
ended id [] = false
ended id ((offset, r) ∷ rs) = ends id r || ended id rs

-- The transaction has begun, and there is no end of it behind the begin.
abbrev pub unfinished : ℕ → List (ℕ × LogRecord) → Bool
unfinished id [] = false
unfinished id ((offset, r) ∷ rs) = begins id r && not (ended id rs) || unfinished id rs

-- The last record of the transaction.
abbrev pub last_lsn : ℕ → List (ℕ × LogRecord) → Option ℕ
last_lsn id [] = none
last_lsn id ((offset, r) ∷ rs) = elim (last_lsn id rs) [
  | some lsn ↦ some lsn
  | none ↦ if r.header.log_tid == id then some r.header.lsn else none
]

-- Some record has the lsn.
abbrev pub has_lsn : ℕ → List (ℕ × LogRecord) → Bool
has_lsn lsn [] = false
has_lsn lsn ((offset, r) ∷ rs) = r.header.lsn == lsn || has_lsn lsn rs

abbrev pub Distinct : List (ℕ × LogRecord) → Type 0
Distinct [] = Unit
Distinct ((offset, r) ∷ rs) = (has_lsn r.header.lsn rs ≡ false) × Distinct rs

-- What a record does to each table.
note-att :
    (id offset : ℕ) (r : LogRecord) (a : Analysis)
    → listed id (note_record offset r a).att ≡ (begins id r || (listed id a.att && not (ends id r)))
unfolding note switch
note-att id offset r a = ground (arith, listed-without id r.header.log_tid a.att)

note-rest :
    (offset : ℕ) (r : LogRecord) (a : Analysis)
    → ((note_record offset r a).txn_last_lsn ≡ insert r.header.log_tid r.header.lsn a.txn_last_lsn)
      × ((note_record offset r a).lsn_to_offset ≡ insert r.header.lsn offset a.lsn_to_offset)
      × ((note_record offset r a).max_lsn
          ≡ (if later r.header.lsn a.max_lsn then r.header.lsn else a.max_lsn))
unfolding note switch
note-rest offset r a = (ground arith, ground arith, ground arith)

note_all-att :
    (id : ℕ) (rs : List (ℕ × LogRecord)) (a : Analysis)
    → listed id (note_all rs a).att ≡ (listed id a.att && not (ended id rs) || unfinished id rs)
unfolding note_all
note_all-att id [] a = ground arith
note_all-att id ((offset, r) ∷ rs) a =
    ground (arith, note_all-att id rs (note_record offset r a), note-att id offset r a)

note_all-txn_last_lsn :
    (id : ℕ) (rs : List (ℕ × LogRecord)) (a : Analysis)
    → lookup id (note_all rs a).txn_last_lsn ≡ elim (last_lsn id rs) as (λ _. Option ℕ) [
      | some lsn ↦ some lsn
      | none ↦ lookup id a.txn_last_lsn
    ]
unfolding note_all
note_all-txn_last_lsn id [] a = refl
note_all-txn_last_lsn id ((offset, r) ∷ rs) a = ground (
  arith,
  note_all-txn_last_lsn id rs (note_record offset r a),
  note-rest offset r a,
  lookup-insert r.header.log_tid id r.header.lsn a.txn_last_lsn,
)

note_all-other_lsn :
    (lsn : ℕ) (rs : List (ℕ × LogRecord)) (a : Analysis)
    → has_lsn lsn rs ≡ false
    → lookup lsn (note_all rs a).lsn_to_offset ≡ lookup lsn a.lsn_to_offset
unfolding note_all
note_all-other_lsn lsn [] a h = refl
note_all-other_lsn lsn ((offset, r) ∷ rs) a h = ground (
  arith,
  note_all-other_lsn lsn rs (note_record offset r a),
  note-rest offset r a,
  lookup-insert r.header.lsn lsn offset a.lsn_to_offset,
)

-- The map leads from the lsn of each record to its offset.
abbrev pub Located : List (ℕ × ℕ) → List (ℕ × LogRecord) → Type 0
Located table [] = Unit
Located table ((offset, r) ∷ rs) = (lookup r.header.lsn table ≡ some offset) × Located table rs

note_all-Located :
    (rs : List (ℕ × LogRecord)) (a : Analysis)
    → Distinct rs
    → Located (note_all rs a).lsn_to_offset rs
unfolding note_all
note_all-Located [] a h = tt
note_all-Located ((offset, r) ∷ rs) a h = (
  ground (
    arith,
    note_all-other_lsn r.header.lsn rs (note_record offset r a) h.0,
    note-rest offset r a,
    lookup-insert r.header.lsn r.header.lsn offset a.lsn_to_offset,
  ),
  note_all-Located rs (note_record offset r a) h.1,
)

-- Each record is read back at its offset.
abbrev pub Read : (ℕ → ℕ) → List (ℕ × LogRecord) → Type 0
Read log_data [] = Unit
Read log_data ((offset, r) ∷ rs) = (deserialize log_data offset ≡ r) × Read log_data rs

pub log-Read :
    (log_data : ℕ → ℕ) (offset : ℕ) (rs : List LogRecord)
    → LogFits rs
    → Holds log_data offset (log_bytes rs)
    → Read log_data (placed offset rs)
log-Read log_data offset [] f h = tt
log-Read log_data offset (r ∷ rs) f h =
    let parts = Holds-append log_data offset (record_bytes r) (log_bytes rs) h in
    (
      deserialize-Holds log_data offset r f.0 parts.0,
      log-Read log_data (offset + length (record_bytes r)) rs f.2 parts.1,
    )

-- No record is later.
abbrev pub Latest : ℕ → List (ℕ × LogRecord) → Type 0
Latest max [] = Unit
Latest max ((offset, r) ∷ rs) = (rank r.header.lsn ≤ rank max) × Latest max rs

max_le :
    (m lsn : ℕ)
    → (rank m ≤ rank (if later lsn m then lsn else m))
      × (rank lsn ≤ rank (if later lsn m then lsn else m))
max_le m lsn = elim (Bool-cases (later lsn m)) [
  | inl y ↦ rw y (ground (arith, y), omega arith)
  | inr n ↦ rw n (omega arith, ground (arith, n))
]

note_all-max_lsn :
    (rs : List (ℕ × LogRecord)) (a : Analysis)
    → (rank a.max_lsn ≤ rank (note_all rs a).max_lsn) × Latest (note_all rs a).max_lsn rs
unfolding note_all
note_all-max_lsn [] a = (omega arith, tt)
note_all-max_lsn ((offset, r) ∷ rs) a =
    let ih = note_all-max_lsn rs (note_record offset r a) in
    let m = (note-rest offset r a).2 in
    let grows : rank a.max_lsn ≤ rank (note_record offset r a).max_lsn =
      rw m (max_le a.max_lsn r.header.lsn).0 in
    let own : rank r.header.lsn ≤ rank (note_record offset r a).max_lsn =
      rw m (max_le a.max_lsn r.header.lsn).1 in
    (omega (arith, ih.0), (omega (arith, ih.0), ih.1))

-- The greatest lsn is that of a record, or the one from before.
note_all-max_lsn_from :
    (rs : List (ℕ × LogRecord)) (a : Analysis)
    → ((note_all rs a).max_lsn ≡ a.max_lsn) ⊎ (has_lsn (note_all rs a).max_lsn rs ≡ true)
unfolding note_all
note_all-max_lsn_from [] a = inl refl
note_all-max_lsn_from ((offset, r) ∷ rs) a =
    let m = (note-rest offset r a).2 in
    elim (note_all-max_lsn_from rs (note_record offset r a)) [
      | inr h ↦ inr (ground (arith, h))
      | inl e ↦ elim (Bool-cases (later r.header.lsn a.max_lsn)) [
        | inl y ↦ inr (ground (arith, e, m, y))
        | inr n ↦ inl (e ∙ m ∙ rw n refl)
      ]
    ]

or_none : (o : Option ℕ) → elim o as (λ _. Option ℕ) [ some l ↦ some l | none ↦ none ] ≡ o
or_none none = refl
or_none (some l) = refl

-- What `analyze` has found out of a log.
pub record Analysed (log_data : ℕ → ℕ) (log : List (ℕ × LogRecord)) (a : Analysis) : Type 0 where
  pub active : (id : ℕ) → listed id a.att ≡ unfinished id log
  pub last : (id : ℕ) → lookup id a.txn_last_lsn ≡ last_lsn id log
  pub located : Located a.lsn_to_offset log
  pub reads : Read log_data log
  pub latest : Latest a.max_lsn log
  pub greatest : (a.max_lsn ≡ invalid_lsn) ⊎ (has_lsn a.max_lsn log ≡ true)

-- `analyze` of a log that was written whole, of less than 2^31 bytes, ends without an exception. Its active transactions are
-- those that have begun with no commit or abort behind, it knows the last record of every
-- transaction and the offset of every record, whose lsns are distinct. Its greatest lsn
-- is the lsn of a record, or INVALID_LSN, and no record is later. Where a record starts, it is read back.
pub analyze-Analysed :
    (log_data : ℕ → ℕ) (log_size : ℕ) (rs : List LogRecord)
    → LogFits rs
    → Distinct (placed 0 rs)
    → Holds log_data 0 (log_bytes rs)
    → log_size < 2 ^ 31
    → log_size ≡ length (log_bytes rs)
    → (a : Analysis) × (analyze log_data log_size ≡ some (answers a))
      × Analysed log_data (placed 0 rs) a
analyze-Analysed log_data log_size rs f d h b e = (
  note_all (placed 0 rs) cleared,
  analyze-note_all log_data log_size rs f h b e,
  record {
    active = λ id. note_all-att id (placed 0 rs) cleared;
    last =
        λ id. note_all-txn_last_lsn id (placed 0 rs) cleared ∙ or_none (last_lsn id (placed 0 rs));
    located = note_all-Located (placed 0 rs) cleared d;
    reads = log-Read log_data 0 rs f h;
    latest = (note_all-max_lsn (placed 0 rs) cleared).1;
    greatest = note_all-max_lsn_from (placed 0 rs) cleared;
  },
)
