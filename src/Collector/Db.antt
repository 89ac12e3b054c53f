-- ===== src/Collector/Db.antt =====
-- collector/src/db.rs: the tables that accumulate the dumps, and the transaction that adds one.
-- A table is a map from its key; the engine's part is a parameter (`Engine`).
pub mod Accepted
pub mod Acceptance
pub mod Files
pub mod Upserts
pub mod Facts
pub mod Runs
pub mod Replay
pub mod Stability
use mathlib.Core.Option.{get_or}
use windows_fileserver_heatm.Prelude.{
  ℕ, suc, ◌+◌, ◌^◌, ◌≡◌, Option, none, some, List, [], ◌∷◌, ◌++◌, Bool, true, false, ◌||◌,
  if◌then◌else◌, leb, any, take, length, ltb,
}
use windows_fileserver_heatm.Prelude.Int.{ℤ, pos, negsuc, leb_ℤ, as_i32, as_i64}
use windows_fileserver_heatm.Prelude.Order.{Ord, nat_ord, int_ord, pair_ord, list_ord, ◌==◌}
use windows_fileserver_heatm.Prelude.Map.{Map, lookup, modify, insert}
use windows_fileserver_heatm.Prelude.Text.{Text, text, split_once, starts_with}
use windows_fileserver_heatm.Prelude.Result.{Result, ok, err, ◌>>=◌, ok_or}
use windows_fileserver_heatm.Collector.Ingest.{Header, DumpRow}

-- A row of the table `files`, below its key (server, share, path).
pub record FileRow : Type 0 where
  pub file_id : ℕ
  pub alloc_bytes : Option ℤ
  pub restat : Bool
  pub unresolved_share : Bool
  pub first_seen : Text
  pub last_seen : Text

pub record RunRow : Type 0 where
  pub server : Text
  pub started_at : Text
  pub last_dump_seq : ℤ
  pub last_dump_at : Text

-- (server, share, path) and (file_id, run_id, day_index).
abbrev pub FileKey : Type 0
FileKey = Text × (Text × Text)

abbrev pub FactKey : Type 0
FactKey = ℕ × (Text × ℤ)

-- `next_id` is the next value of the sequence `file_id_seq`.
pub record Store : Type 0 where
  pub next_id : ℕ
  pub files : Map FileKey FileRow
  pub runs : Map Text RunRow
  pub day_counts : Map FactKey (ℕ × ℕ)

abbrev pub empty_store : Store
empty_store = record { next_id = 1; files = []; runs = []; day_counts = [] }

pub data IngestOutcome : Type 0 where
  accepted : IngestOutcome
  dedupe_noop : IngestOutcome

pub data IngestError : Type 0 where
  missing_emitted_at : IngestError
  non_utc_offset : Text → IngestError
  engine_error : Text → IngestError

-- The engine's casts, with its errors: `CAST(? AS UUID)`, `CAST(? AS TIMESTAMP)`, and a BIGINT
-- that is stored in an INTEGER column.
pub record Engine : Type 0 where
  pub uuid : Text → Result IngestError Text
  pub timestamp : Text → Result IngestError Text
  pub integer : ℕ → Result IngestError ℕ

-- The last piece of a text behind a sign, with what stands before it; `none` without a sign.
abbrev pub rfind_sign : Text → Option (Text × Text)
rfind_sign [] = none
rfind_sign (c ∷ s) = elim (rfind_sign s) [
  | some (p, q) ↦ some (c ∷ p, q)
  | none ↦ if c == b'+' || c == b'-' then some ([], c ∷ s) else none
]

abbrev pub strip_z : Text → Option Text
strip_z [] = none
strip_z (c ∷ []) = if c == b'Z' then some [] else none
strip_z (c ∷ d ∷ s) = elim (strip_z (d ∷ s)) [ some p ↦ some (c ∷ p) | none ↦ none ]

-- The time behind the first `T`: a zero offset is cut off, another is refused.
abbrev pub strip_offset : Text → Text → Text → Option Text
strip_offset ts date time = elim (rfind_sign time) [
  | none ↦ some ts
  | some (before, offset) ↦
      if offset == text "+00:00" || offset == text "-00:00"
      then some (date ++ b'T' ∷ before)
      else none
]

unfoldable pub strip_utc_suffix : Text → Option Text
strip_utc_suffix ts = elim (strip_z ts) [
  | some rest ↦ some rest
  | none ↦ elim (split_once b'T' ts) [
    | none ↦ some ts
    | some (date, time) ↦ strip_offset ts date time
  ]
]

abbrev pub has_flag : Text → DumpRow → Bool
has_flag f row = any (λ g. g == f) row.flags

-- What an upsert writes over the columns that follow the latest dump.
abbrev pub file_row : ℕ → Text → DumpRow → Text → FileRow
file_row file_id first_seen row ts = record {
  file_id = file_id;
  alloc_bytes = elim row.alloc_bytes [ none ↦ none | some v ↦ some (as_i64 v) ];
  restat = has_flag (text "restat") row;
  unresolved_share = has_flag (text "unresolved_share") row;
  first_seen = first_seen;
  last_seen = ts;
}

-- The update, or the insertion, of the row of `files`, by what the SELECT found; with its file id.
unfoldable pub upsert_found : Text → DumpRow → Text → Store → Option FileRow → Store × ℕ
upsert_found server row ts db (some old) = (
  record {
    next_id = db.next_id;
    files =
        insert {K = FileKey} (server, (row.share, row.path))
          (file_row old.file_id old.first_seen row ts) db.files;
    runs = db.runs;
    day_counts = db.day_counts;
  },
  old.file_id,
)
upsert_found server row ts db none = (
  record {
    next_id = suc db.next_id;
    files =
        insert {K = FileKey} (server, (row.share, row.path)) (file_row db.next_id ts row ts)
          db.files;
    runs = db.runs;
    day_counts = db.day_counts;
  },
  db.next_id,
)

-- INSERT INTO day_counts ... ON CONFLICT DO UPDATE.
unfoldable pub put_fact : Text → DumpRow → ℕ × ℕ → Store × ℕ → Store
put_fact run row counts (db, file_id) = record {
  next_id = db.next_id;
  files = db.files;
  runs = db.runs;
  day_counts = insert {K = FactKey} (file_id, (run, row.day)) counts db.day_counts;
}

-- The run's row after a dump, by the row before.
abbrev pub run_row : Header → Text → Option RunRow → RunRow
run_row header at none = record {
  server = header.server;
  started_at = at;
  last_dump_seq = as_i32 header.dump_seq;
  last_dump_at = at;
}
run_row header at (some old) = record {
  server = old.server;
  started_at = old.started_at;
  last_dump_seq = as_i32 header.dump_seq;
  last_dump_at = at;
}

abbrev pub put_run : Text → RunRow → Store → Store
put_run run r db = record {
  next_id = db.next_id;
  files = db.files;
  runs = insert run r db.runs;
  day_counts = db.day_counts;
}

-- The gate: the run is known and has this dump, or a later one.
abbrev pub already_applied : Header → Option RunRow → Bool
already_applied header none = false
already_applied header (some old) = leb_ℤ (as_i32 header.dump_seq) old.last_dump_seq

module _ (engine : Engine) where
  unfoldable pub upsert_dimension : Text → DumpRow → Text → Store → Result IngestError (Store × ℕ)
  upsert_dimension server row ts db = do
    at ← engine.timestamp ts
    ok (
        upsert_found server row at db
          (lookup {K = FileKey} (server, (row.share, row.path)) db.files))

  -- One round of the loop over the rows.
  unfoldable pub ingest_row : Text → Text → Text → DumpRow → Store → Result IngestError Store
  ingest_row server run ts row db = do
    found ← upsert_dimension server row ts db
    reads ← engine.integer row.reads
    writes ← engine.integer row.writes
    ok (put_fact run row (reads, writes) found)

  unfoldable pub ingest_rows : Text → Text → Text → List DumpRow → Store → Result IngestError Store
  ingest_rows server run ts [] db = ok db
  ingest_rows server run ts (row ∷ rows) db =
      ingest_row server run ts row db >>= λ db'. ingest_rows server run ts rows db'

  -- The transaction behind the gate, by the run's row; it ends with the commit.
  unfoldable pub apply_dump :
      Header → List DumpRow → Text → Text → Option RunRow → Store → Result IngestError Store
  apply_dump header rows run ts old db = do
    db' ← ingest_rows header.server run ts rows db
    at ← engine.timestamp ts
    ok (put_run run (run_row header at old) db')

  unfoldable pub gate :
      Header
      → List DumpRow
      → Text
      → Text
      → Option RunRow
      → Store
      → Result IngestError (Store × IngestOutcome)
  gate header rows run ts old db =
      if already_applied header old
      then ok (db, dedupe_noop)
      else (apply_dump header rows run ts old db >>= λ db'. ok (db', accepted))

  -- The whole call; after an error nothing is committed.
  unfoldable pub ingest : Store → Header → List DumpRow → Result IngestError (Store × IngestOutcome)
  ingest db header rows = do
    emitted_at ← ok_or header.emitted_at missing_emitted_at
    ts ← ok_or (strip_utc_suffix emitted_at) (non_utc_offset emitted_at)
    run ← engine.uuid header.run_id
    gate header rows run ts (lookup run db.runs) db
