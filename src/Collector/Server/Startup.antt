-- ===== src/Collector/Server/Startup.antt =====
-- collector/src/main.rs: how the collector starts, up to the accept loop, and the loop over the
-- requests.
use windows_fileserver_heatm.Prelude.{ℕ, Option, none, some, List, [], ◌∷◌, ◌++◌}
use windows_fileserver_heatm.Prelude.Int.{ℤ}
use windows_fileserver_heatm.Prelude.Result.{Result, ok, err, ◌>>=◌}
use windows_fileserver_heatm.Prelude.Text.{Text, text, cat, newline}
use windows_fileserver_heatm.Collector.Clock.{rfc3339_utc}
use windows_fileserver_heatm.Collector.Db.{Engine}
use windows_fileserver_heatm.Collector.Ingest.{Wire}
use windows_fileserver_heatm.Collector.Options.{
  Exit, needs_value, parse_bind, parse_archive_dir, parse_db, parse_tier_log,
}
use windows_fileserver_heatm.Collector.Server.{Host, Request, Reply, LogLine, State, handle}

-- What the start meets: opening a database, running the tables' definitions on it, the version of its
-- engine, binding an address, making the archive's directory and appending to the startup log, each
-- with its error; the last component of a path; and the clock.
pub record Environment : Type 0 where
  pub connect : Text → Option Text
  pub execute_ddl : Text → Option Text
  pub version : Text → Result Text Text
  pub bind : Text → Option Text
  pub create_dir_all : Text → Option Text
  pub append : Text → Option Text
  pub file_name : Text → Option Text
  pub now_secs : ℤ

-- The process ends, with the line on stderr and the code.
pub record Stopped : Type 0 where
  pub line : Text
  pub code : ℕ

pub record Config : Type 0 where
  pub bind : Text
  pub archive_dir : Text
  pub db_path : Option Text
  pub tier_log : Option Text

-- A collector that listens: the lines on stderr, what is appended to the startup log, the token of
-- the database in the log lines, and the options.
pub record Listening : Type 0 where
  pub config : Config
  pub stderr : List Text
  pub startup_log : Option Text
  pub db_token : Text

abbrev pub stop_at_flag : {A : Type 0} → Result Exit A → Result Stopped A
stop_at_flag (ok a) = ok a
stop_at_flag (err (needs_value flag)) =
    err (record { line = flag ++ text " needs a value"; code = 2 })

unfoldable pub parse_config : List Text → Result Stopped Config
parse_config args = do
  bind ← stop_at_flag (parse_bind args)
  archive_dir ← stop_at_flag (parse_archive_dir args)
  db_path ← stop_at_flag (parse_db args)
  tier_log ← stop_at_flag (parse_tier_log args)
  ok (record { bind = bind; archive_dir = archive_dir; db_path = db_path; tier_log = tier_log })

abbrev pub display_or : Text → Option Text → Text
display_or other none = other
display_or other (some path) = path

module _ (env : Environment) where
  -- A connection with its tables, which answers with the version of its engine.
  unfoldable pub open_db : Text → Result Text Text
  open_db path = elim (env.connect path) [
    | some e ↦ err e
    | none ↦ elim (env.execute_ddl path) [ some e ↦ err e | none ↦ env.version path ]
  ]

  -- The version of the engine, if there is a database.
  abbrev pub opened : Option Text → Result Stopped (Option Text)
  opened none = ok none
  opened (some path) = elim (open_db path) [
    | ok version ↦ ok (some version)
    | err e ↦
        err
          (record { line = cat (text "failed to open db " ∷ path ∷ text ": " ∷ e ∷ []); code = 1 })
  ]

  abbrev pub bound : Text → Result Stopped Text
  bound address = elim (env.bind address) [
    | none ↦ ok address
    | some e ↦
        err
          (record { line = cat (text "failed to bind " ∷ address ∷ text ": " ∷ e ∷ []); code = 1 })
  ]

  abbrev pub token_of : Option Text → Text
  token_of none = text "none"
  token_of (some path) = display_or (text "none") (env.file_name path)

  abbrev pub marker : Config → Option Text → Text
  marker c (some version) = cat (
      text "collector listening on "
      ∷ c.bind
      ∷ text ", archive "
      ∷ c.archive_dir
      ∷ text ", db "
      ∷ display_or (text "none") c.db_path
      ∷ text " (engine "
      ∷ version
      ∷ text "), tier_log="
      ∷ display_or (text "missing") c.tier_log
      ∷ [])
  marker c none = cat (
      text "collector listening on "
      ∷ c.bind
      ∷ text ", archive "
      ∷ c.archive_dir
      ∷ text " (archive-only, no db), tier_log="
      ∷ display_or (text "missing") c.tier_log
      ∷ [])

  abbrev pub startup_line : Config → Option Text → Text
  startup_line c version = cat (
      rfc3339_utc env.now_secs
      ∷ text " bind="
      ∷ c.bind
      ∷ text " archive="
      ∷ c.archive_dir
      ∷ text " db="
      ∷ display_or (text "none") c.db_path
      ∷ text " engine="
      ∷ display_or (text "none") version
      ∷ text " tier_log="
      ∷ display_or (text "missing") c.tier_log
      ∷ (newline ∷ [])
      ∷ [])

  -- The line that is appended, if it is, and the warning if not.
  unfoldable pub append_startup_log : Config → Option Text → Option Text × List Text
  append_startup_log c version = elim (env.create_dir_all c.archive_dir) [
    | some e ↦ (none, (text "warning: could not create archive dir for _startup.log: " ++ e) ∷ [])
    | none ↦ elim (env.append (startup_line c version)) [
      | some e ↦ (none, (text "warning: could not write _startup.log: " ++ e) ∷ [])
      | none ↦ (some (startup_line c version), [])
    ]
  ]

  unfoldable pub main : List Text → Result Stopped Listening
  main args = do
    c ← parse_config args
    version ← opened c.db_path
    address ← bound c.bind
    ok (record {
      config = c;
      stderr = marker c version ∷ (append_startup_log c version).1;
      startup_log = (append_startup_log c version).0;
      db_token = token_of c.db_path;
    })

-- The accept loop: one request after the other, each with what it meets.
unfoldable pub serve :
    Wire → Engine → List (Host × Request) → State → State × List (Reply × LogLine)
serve wire engine [] s = (s, [])
serve wire engine ((host, request) ∷ requests) s =
    let (after, out) = handle host wire engine request s in
    let (last, outs) = serve wire engine requests after in (last, out ∷ outs)
