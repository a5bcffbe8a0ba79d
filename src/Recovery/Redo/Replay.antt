-- ===== src/Recovery/Redo/Replay.antt =====
-- The redo of a log against the replay of its changes on the contents of a table.
use aidv.Prelude.{ℕ, ◌≤◌, ◌<◌, ◌≡◌, Bool, false, some, List, [], ◌∷◌, if◌then◌else◌, same_bytes}
use aidv.Record.{Answer}
use aidv.Recovery.LogRecord.{LogRecord, LogBody, other}
use aidv.Recovery.Analysis.{rank}
use aidv.Recovery.Redo.{Table, Tables, redo_record}
use aidv.Recovery.Redo.Contents.{Contents, contents, change, Blank}

-- The changes of the log to one table, one after another.
abbrev pub names : List ℕ → LogBody → Bool
names name other = false
names name (LogBody.insert value rid name') = same_bytes name' name
names name (LogBody.delete value rid name') = same_bytes name' name
names name (LogBody.update old_value new_value rid name') = same_bytes name' name

abbrev pub replay : List ℕ → List LogRecord → Contents → Contents
replay name [] c = c
replay name (r ∷ rs) c = replay name rs (if names name r.body then change r.body c else c)

-- The lsn of a change is later than the last. That of a begin, commit or abort may be the same.
abbrev pub Follows : LogBody → ℕ → ℕ → Type 0
Follows other last lsn = rank last ≤ rank lsn
Follows (LogBody.insert value rid name) last lsn = rank last < rank lsn
Follows (LogBody.delete value rid name) last lsn = rank last < rank lsn
Follows (LogBody.update old_value new_value rid name) last lsn = rank last < rank lsn

abbrev pub Ascending : ℕ → List LogRecord → Type 0
Ascending last [] = Unit
Ascending last (r ∷ rs) = Follows r.body last r.header.lsn × Ascending r.header.lsn rs

-- The table is open, its contents are these, and no page has an lsn above the last.
pub record Open (name : List ℕ) (last : ℕ) (c : Contents) (tables : Tables) : Type 0 where
  pub table : Table
  pub open_as : tables name ≡ some table
  pub has : (p s : ℕ) → contents table p s ≡ c p s
  pub blank : Blank table.file
  pub lsns : (p : ℕ) → rank (table.page_lsn p) ≤ rank last

abbrev redo_step : ℕ → LogRecord → Tables → Answer Tables
redo_step offset r tables = redo_record r.header.lsn r.body tables
