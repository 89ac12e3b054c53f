-- ===== src/Collector/Server.antt =====
-- collector/src/main.rs and archive.rs: one request, from its route to its response.
pub mod Handling
pub mod Retry
pub mod Console
pub mod Api
pub mod Startup
pub mod Filing
pub mod Keeping
pub mod Service
pub mod Isolation
use windows_fileserver_heatm.Prelude.{
  ℕ, ◌+◌, ◌*◌, Option, none, some, List, [], ◌∷◌, ◌++◌, Bool, true, false, not, ◌&&◌, if◌then◌else◌,
  ltb, length, take,
}
use windows_fileserver_heatm.Prelude.Order.{nat_ord, list_ord, ◌==◌}
use windows_fileserver_heatm.Prelude.Map.{Map, insert}
use windows_fileserver_heatm.Prelude.Text.{Text, text, split_once, decimal, cat}
use windows_fileserver_heatm.Prelude.Result.{Result, ok, err}
use windows_fileserver_heatm.Collector.Ingest.{
  Header, DumpRow, Disposition, malformed, rejected, accepted, Wire, classify, archive_rel_path,
  run8,
}
use windows_fileserver_heatm.Collector.Archive.{Disk, Written, write_verbatim, write_malformed}
use windows_fileserver_heatm.Collector.Db
use windows_fileserver_heatm.Collector.Db.{
  Store, Engine, IngestOutcome, IngestError, missing_emitted_at, non_utc_offset, engine_error,
  ingest,
}

pub data Method : Type 0 where
  get post other_method : Method

pub record Request : Type 0 where
  pub method : Method
  pub url : Text
  pub body : Text

-- A response, with the Content-Type that the handler sets, if it sets one.
pub record Reply : Type 0 where
  pub status : ℕ
  pub body : Text
  pub content_type : Option Text

-- `Response::from_string(body).with_status_code(status)`, and `Response::empty(status)`.
abbrev pub text_reply : Text → ℕ → Reply
text_reply body status = record { status = status; body = body; content_type = none }

abbrev pub empty_reply : ℕ → Reply
empty_reply status = text_reply [] status

abbrev pub json_response : Text → ℕ → Reply
json_response body status = record {
  status = status;
  body = body;
  content_type = some (text "application/json");
}

-- The line on standard output: of a GET, or of any other request.
pub data LogLine : Type 0 where
  -- path, status
  get_line : Text → ℕ → LogLine
  -- server, run, seq, rows, status, reason
  ingest_line : Text → Text → Text → Text → ℕ → Text → LogLine

-- The archive's directory, by the path of a file below its root, and the database with `--db`.
pub record State : Type 0 where
  pub archive : Map Text Text
  pub db : Option Store

-- What a request meets: the clock, the error of reading the body, the file system, the
-- embedded pages, the responses of the read API, and the text of a JSON error.
pub record Host : Type 0 where
  pub now_millis : ℕ
  pub read_error : Option Text
  pub disk : Disk
  pub index_html : Text
  pub app_js : Text
  pub style_css : Text
  pub api_leaderboard : Option Store → Text → Reply
  pub api_children : Option Store → Text → Reply
  pub api_health : Option Store → Reply
  pub json_error_text : Text → Text

abbrev pub max_body : ℕ
max_body = 256 * 1024 * 1024

-- `Display` of an error.
abbrev pub show_error : IngestError → Text
show_error missing_emitted_at = text "header missing emitted_at"
show_error (non_utc_offset ts) = text "emitted_at has a non-UTC offset: " ++ ts
show_error (engine_error e) = e

-- The fields of a disposition that a log line shows.
abbrev pub log_identity : Disposition → Text × (Text × Text)
log_identity (malformed reason) = (text "-", (text "-", text "-"))
log_identity (rejected header reason) =
    (header.server, (run8 header.run_id, decimal header.dump_seq))
log_identity (accepted header rows) = (header.server, (run8 header.run_id, decimal header.dump_seq))

abbrev pub log_line : Disposition → Text → ℕ → Text → LogLine
log_line d rows status reason =
    let who = log_identity d in ingest_line who.0 who.1.0 who.1.1 rows status reason

abbrev pub no_identity_line : ℕ → Text → LogLine
no_identity_line status reason =
    ingest_line (text "-") (text "-") (text "-") (text "-") status reason

abbrev pub static_response : Text → Text → Reply
static_response body content_type = record {
  status = 200;
  body = body;
  content_type = some content_type;
}

abbrev pub json_error : Host → Text → ℕ → Reply
json_error host message status = json_response (host.json_error_text message) status

unfoldable pub handle_get : Host → Text → Text → State → State × (Reply × LogLine)
handle_get host path query s =
    let resp =
      (if path == text "/"
        then static_response host.index_html (text "text/html; charset=utf-8")
        else if path == text "/app.js"
        then static_response host.app_js (text "application/javascript; charset=utf-8")
        else if path == text "/style.css"
        then static_response host.style_css (text "text/css; charset=utf-8")
        else if path == text "/api/leaderboard"
        then host.api_leaderboard s.db query
        else if path == text "/api/children"
        then host.api_children s.db query
        else if path == text "/api/health"
        then host.api_health s.db
        else json_error host (text "not found") 404) in
    (s, (resp, get_line path resp.status))

-- The response to an accepted dump, by what the ingest returned.
unfoldable pub ingested :
    Disposition
    → Text
    → State
    → Result IngestError (Store × IngestOutcome)
    → State × (Reply × LogLine)
ingested d n s (ok (db, Db.accepted)) =
    (record s { db = some db }, (empty_reply 200, log_line d n 200 (text "accepted")))
ingested d n s (ok (db, Db.dedupe_noop)) =
    (record s { db = some db }, (empty_reply 200, log_line d n 200 (text "dedupe-noop")))
ingested d n s (err e) = (
  s,
  (text_reply (text "db ingest failed") 500, log_line d n 500 (text "db error: " ++ show_error e)),
)

-- The end of the handler, once the body is archived.
unfoldable pub answer : Engine → Disposition → State → Option Store → State × (Reply × LogLine)
answer engine (malformed reason) s db =
    (s, (text_reply reason 400, log_line (malformed reason) (text "-") 400 reason))
answer engine (rejected header reason) s db =
    (s, (text_reply reason 400, log_line (rejected header reason) (text "-") 400 reason))
answer engine (accepted header rows) s none =
    (s, (empty_reply 200, log_line (accepted header rows) (decimal (length rows)) 200 (text "ok")))
answer engine (accepted header rows) s (some db) =
    ingested (accepted header rows) (decimal (length rows)) s (ingest engine db header rows)

-- The body is written to the archive.
unfoldable pub archived : Disk → ℕ → Disposition → Text → Map Text Text → Written
archived disk millis (malformed reason) body files = write_malformed disk millis body files
archived disk millis (rejected header reason) body files =
    write_verbatim disk (archive_rel_path header.server header.run_id header.dump_seq) body files
archived disk millis (accepted header rows) body files =
    write_verbatim disk (archive_rel_path header.server header.run_id header.dump_seq) body files

-- What follows the write, by the files that it leaves and its error.
unfoldable pub after_archive : Engine → Disposition → Written → State → State × (Reply × LogLine)
after_archive engine d (files, some e) s = (
  record s { archive = files },
  (
    text_reply (text "archive write failed") 500,
    log_line d (text "-") 500 (text "archive failed: " ++ e),
  ),
)
after_archive engine d (files, none) s = answer engine d (record s { archive = files }) s.db

-- A body that is read and not too long.
unfoldable pub archive_and_answer :
    Engine → Disk → ℕ → Disposition → Text → State → State × (Reply × LogLine)
archive_and_answer engine disk millis d body s =
    after_archive engine d (archived disk millis d body s.archive) s

-- A POST to /ingest, by the error of reading its body, if any, and whether the body is too long.
unfoldable pub posted :
    Host → Wire → Engine → Text → Option Text → Bool → State → State × (Reply × LogLine)
posted host wire engine body (some e) over s =
    (s, (text_reply (text "read error: " ++ e) 400, no_identity_line 400 (text "body read error")))
posted host wire engine body none true s = (
  s,
  (
    text_reply (text "body exceeds 256 MiB") 400,
    no_identity_line 400 (text "body exceeds 256 MiB"),
  ),
)
posted host wire engine body none false s =
    archive_and_answer engine host.disk host.now_millis (classify wire body) body s

-- At most one byte more than the limit is read.
unfoldable pub handle_post : Host → Wire → Engine → Text → State → State × (Reply × LogLine)
handle_post host wire engine sent s =
    let body = take (max_body + 1) sent in
    posted host wire engine body host.read_error (ltb max_body (length body)) s

abbrev pub url_path : Text → Text
url_path url = elim (split_once b'?' url) [ some (path, query) ↦ path | none ↦ url ]

abbrev pub url_query : Text → Text
url_query url = elim (split_once b'?' url) [ some (path, query) ↦ query | none ↦ [] ]

-- A request by its method and whether its path is /ingest.
unfoldable pub routed :
    Host → Wire → Engine → Request → Method → Bool → State → State × (Reply × LogLine)
routed host wire engine request get _ s =
    handle_get host (url_path request.url) (url_query request.url) s
routed host wire engine request post true s = handle_post host wire engine request.body s
routed host wire engine request _ _ s =
    (s, (empty_reply 404, no_identity_line 404 (text "no route")))

unfoldable pub handle : Host → Wire → Engine → Request → State → State × (Reply × LogLine)
handle host wire engine request s =
    routed host wire engine request request.method (url_path request.url == text "/ingest") s
