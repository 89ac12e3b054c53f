-- ===== src/Collector/Server/Service.antt =====
-- What holds of the database through a sequence of requests.
use mathlib.Core.Path.{subst}
use windows_fileserver_heatm.Prelude.{◌≡◌, refl, Option, some, List}
use windows_fileserver_heatm.Prelude.Order.{nat_ord, list_ord, pair_ord}
use windows_fileserver_heatm.Prelude.Map.{lookup}
use windows_fileserver_heatm.Prelude.Result.{ok}
use windows_fileserver_heatm.Collector.Ingest.{Header, DumpRow, Wire}
use windows_fileserver_heatm.Collector.Db
use windows_fileserver_heatm.Collector.Db.{
  Store, Engine, IngestOutcome, IngestError, ingest, FileKey, FileRow,
}
use windows_fileserver_heatm.Collector.Db.Stability.{Kept, Kept-ingest}
use windows_fileserver_heatm.Collector.Db.Files.{IsWellFormed}
use windows_fileserver_heatm.Collector.Db.Facts.{KeepsNumbers, ingest-facts}
use windows_fileserver_heatm.Collector.Db.Replay.{ingest_run, ingest_noop}
use windows_fileserver_heatm.Collector.Server.{Request, State, Host}
use windows_fileserver_heatm.Collector.Server.Startup.{serve}
use windows_fileserver_heatm.Collector.Server.Keeping.{serve_keeps}

same_store : (now before : Store) → some before ≡ some now → now ≡ before
same_store now before e = cc

-- The database has the file, with the id and the time of first sight.
abbrev pub HasKept : FileKey → FileRow → Option Store → Type 0
HasKept k f db = (now : Store) × (db ≡ some now) × Kept k f now

module _ (wire : Wire) (engine : Engine) where
  -- Whatever requests a collector with a database answers, a file that the database knows keeps its
  -- id and its time of first sight.
  pub serve-HasKept :
      (requests : List (Host × Request)) (s : State) (db : Store) (k : FileKey) (f : FileRow)
      → s.db ≡ some db
      → lookup {K = FileKey} k db.files ≡ some f
      → HasKept k f (serve wire engine requests s).0.db
  serve-HasKept requests s db k f e found =
      serve_keeps engine (HasKept k f)
        (λ header rows before after outcome h kept. (
          after,
          refl,
          Kept-ingest engine k f header rows before after outcome h
              (subst (Kept k f) (same_store kept.0 before kept.1) kept.2),
        ))
        wire requests s
        (db, e, record { now = f; stored = found; same_id = refl; same_first_seen = refl })

-- The database has consistent tables.
abbrev pub HasConsistent : Option Store → Type 0
HasConsistent db = (now : Store) × (db ≡ some now) × IsWellFormed now

module _ (wire : Wire) (engine : Engine) where
  ingest-IsWellFormed :
      (header : Header) (rows : List DumpRow) (before after : Store) (outcome : IngestOutcome)
      → KeepsNumbers engine
      → ingest engine before header rows ≡ ok (after, outcome)
      → IsWellFormed before
      → IsWellFormed after
  ingest-IsWellFormed header rows before after Db.accepted keeps h well =
      let run = ingest_run engine before after header rows Db.accepted h in
      (ingest-facts engine before after header rows run.0 keeps well run.1 h).0
  ingest-IsWellFormed header rows before after Db.dedupe_noop keeps h well =
      subst IsWellFormed (ingest_noop engine before after header rows h) well

  -- Whatever requests a collector answers, its tables stay consistent: the ids of files are unique and
  -- were given out, and no fact stands under an id that was not. The engine keeps the numbers that it
  -- stores.
  pub serve-HasConsistent :
      (requests : List (Host × Request)) (s : State) (db : Store)
      → KeepsNumbers engine
      → s.db ≡ some db
      → IsWellFormed db
      → HasConsistent (serve wire engine requests s).0.db
  serve-HasConsistent requests s db keeps e well =
      serve_keeps engine HasConsistent
        (λ header rows before after outcome h kept. (
          after,
          refl,
          ingest-IsWellFormed header rows before after outcome keeps h
              (subst IsWellFormed (same_store kept.0 before kept.1) kept.2),
        ))
        wire requests s (db, e, well)
