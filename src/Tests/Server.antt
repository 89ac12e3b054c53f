-- ===== src/Tests/Server.antt =====
-- Requests to the collector, with the toy codec and an empty database.
use windows_fileserver_heatm.Prelude.{ℕ, ◌≡◌, ◌≢◌, refl, ◌↔◌, none, some, [], ◌∷◌, false, arith}
use windows_fileserver_heatm.Prelude.Map.{lookup}
use windows_fileserver_heatm.Prelude.Order.{nat_ord, int_ord, list_ord, pair_ord}
use windows_fileserver_heatm.Prelude.Text.{Text, text, split}
use windows_fileserver_heatm.Collector.Ingest.{
  classify, classify_lines, classify_body, parse_header, validate_naming, is_valid_server,
  is_valid_uuid, parse_body_lines, body_loop, body_step, check_footer, split_ndjson,
}
use windows_fileserver_heatm.Collector.Archive.{Disk, whole, write_verbatim}
use windows_fileserver_heatm.Collector.Archive.Files.{IsHealthy}
use windows_fileserver_heatm.Collector.Archive.Places.{place_of}
use windows_fileserver_heatm.Collector.Db.{empty_store}
use windows_fileserver_heatm.Collector.Server.{
  Request, post, State, Host, empty_reply, handle, handle_post, posted, archive_and_answer,
  after_archive, archived, answer,
}
use windows_fileserver_heatm.Collector.Server.Handling.{
  IsSound, handle-IsSound, handle_post-archived,
}
use windows_fileserver_heatm.Collector.Server.Retry.{IsRepeat, handle_post-later}
use windows_fileserver_heatm.Collector.Server.Service.{HasConsistent, serve-HasConsistent}
use windows_fileserver_heatm.Collector.Server.Startup.{serve}
use windows_fileserver_heatm.Collector.Query.{Std, percent_bytes}
use windows_fileserver_heatm.Collector.Query.Decoding.{Encodes, percent_bytes_iff}
use windows_fileserver_heatm.Tests.Collector.{toy_wire}
use windows_fileserver_heatm.Tests.Database.{plain_engine, empty_store-IsWellFormed, after_one}

-- Every file is below one directory, and no error is met.
abbrev pub quiet_disk : Disk
quiet_disk = record {
  parent = λ path. some (text "fs01");
  create_dir_all = λ dir. none;
  write = λ path. whole;
}

pub quiet_disk-IsHealthy : IsHealthy quiet_disk
quiet_disk-IsHealthy = record { creates = λ dir. refl; writes = λ path. refl }

abbrev pub quiet_host : Host
quiet_host = record {
  now_millis = 1000;
  read_error = none;
  disk = quiet_disk;
  index_html = [];
  app_js = [];
  style_css = [];
  api_leaderboard = λ db query. empty_reply 503;
  api_children = λ db query. empty_reply 503;
  api_health = λ db. empty_reply 503;
  json_error_text = λ s. s;
}

abbrev archive_only : State
archive_only = record { archive = []; db = none }

-- A header, a row and a footer of the toy codec.
abbrev sent : Text
sent = text "H\nRa\nF1\n"

abbrev posting : Request
posting = record { method = post; url = text "/ingest"; body = sent }

handle-IsSound_example :
    IsSound archive_only (handle quiet_host toy_wire plain_engine posting archive_only)
handle-IsSound_example = handle-IsSound quiet_host toy_wire plain_engine posting archive_only

handle_post-archived_example :
    (lookup
        (place_of 1000 (classify toy_wire sent))
        (handle_post quiet_host toy_wire plain_engine sent archive_only).0.archive
      ≡ some sent)
    × ((p : Text)
        → place_of 1000 (classify toy_wire sent) ≢ p
        → lookup p (handle_post quiet_host toy_wire plain_engine sent archive_only).0.archive
          ≡ lookup p archive_only.archive)
handle_post-archived_example =
    handle_post-archived quiet_host toy_wire plain_engine sent archive_only (omega arith) refl
      quiet_disk-IsHealthy

answered : (handle_post quiet_host toy_wire plain_engine sent archive_only).1.0.status ≡ 200
unfolding handle_post posted archive_and_answer after_archive archived write_verbatim answer
    classify classify_lines classify_body parse_header validate_naming is_valid_server is_valid_uuid
    parse_body_lines body_loop body_step check_footer split_ndjson split
answered = refl

abbrev after_other : State
after_other =
    (serve toy_wire plain_engine ((quiet_host, posting) ∷ [])
      (handle_post quiet_host toy_wire plain_engine sent archive_only).0).0

handle_post-later_example :
    IsRepeat after_other (handle_post quiet_host toy_wire plain_engine sent after_other)
handle_post-later_example =
    handle_post-later quiet_host quiet_host toy_wire plain_engine sent archive_only
      ((quiet_host, posting) ∷ []) (omega arith) refl quiet_disk-IsHealthy refl quiet_disk-IsHealthy
      answered

abbrev with_database : State
with_database = record { archive = []; db = some after_one }

serve-HasConsistent_example :
    HasConsistent
      (serve toy_wire plain_engine
        ((quiet_host, posting) ∷ [])
        (record { archive = []; db = some empty_store })).0.db
serve-HasConsistent_example =
    serve-HasConsistent toy_wire plain_engine ((quiet_host, posting) ∷ [])
      (record { archive = []; db = some empty_store }) empty_store (λ n m h. ground arith) refl
      empty_store-IsWellFormed

percent_bytes_iff_example :
    (percent_bytes (text "a+%2f%2F%zz") ≡ text "a //%zz")
    ↔ Encodes (text "a //%zz") (text "a+%2f%2F%zz")
percent_bytes_iff_example = percent_bytes_iff (text "a //%zz") (text "a+%2f%2F%zz")

decoded : percent_bytes (text "a+%2f%2F%zz") ≡ text "a //%zz"
unfolding percent_bytes
decoded = refl

-- Weights in whole numbers, and no number is parsed.
abbrev pub no_std : Std
no_std = record {
  zero = 0;
  is_nonzero = λ x. false;
  add = λ x y. 0;
  div = λ x y. 0;
  of_i64 = λ x. 0;
  F64 = ℕ;
  parse_f64 = λ s. none;
  one = 1;
  two = 2;
  is_negative = λ x. false;
  parse_i64 = λ s. none;
  from_utf8_lossy = λ s. s;
  trim = λ s. s;
}

other_argument : text "-v" ≢ text "--db"
other_argument e = cc
