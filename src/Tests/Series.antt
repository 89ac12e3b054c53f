-- ===== src/Tests/Series.antt =====
-- Two flushes of one row, of which the first may be lost on the way to a collector with an empty
-- database.
use windows_fileserver_heatm.Prelude.{
  ℕ, ◌∙◌, sym, take, ◌+◌, ◌-◌, ◌≡◌, refl, ap, some, none, List, [], ◌∷◌, true, length, arith,
  if◌then◌else◌,
}
use windows_fileserver_heatm.Prelude.Order.{nat_ord, int_ord, list_ord, pair_ord, option_ord, ◌==◌}
use windows_fileserver_heatm.Prelude.Map.{lookup}
use windows_fileserver_heatm.Prelude.Sort.{sort_by, insert_by}
use windows_fileserver_heatm.Prelude.Result.{Result, ok, err}
use windows_fileserver_heatm.Prelude.Text.{Text, text, split, split_once}
use windows_fileserver_heatm.Agent.Correlation.{resolve_name}
use windows_fileserver_heatm.Agent.Correlation.Emission.{
  emit_rows, key_rows, outcome, classify_key, kept_as,
}
use windows_fileserver_heatm.Agent.Emit
use windows_fileserver_heatm.Agent.Emit.{Serializer, document, header_line, push_line, push_rows}
use windows_fileserver_heatm.Agent.Flusher.{FlushCtx, Moment, flush}
use windows_fileserver_heatm.Collector.Ingest.{
  RawHeader, Header, Disposition, malformed, rejected, accepted, row, footer, Wire, classify,
  classify_lines, classify_body, parse_header, validate_naming, is_valid_server, is_valid_uuid,
  parse_body_lines, body_loop, body_step, check_footer, split_ndjson,
}
use windows_fileserver_heatm.Collector.Server.{Host, Request, post, max_body}
use windows_fileserver_heatm.Collector.Server.Keeping.{AdmitsAll}
use windows_fileserver_heatm.Collector.Server.Isolation.{IsForeign, HasSameRun, serve-HasSameRun}
use windows_fileserver_heatm.Collector.Server.Startup.{serve}
use windows_fileserver_heatm.Collector.Db.{IngestError, empty_store, strip_utc_suffix}
use windows_fileserver_heatm.Collector.Db.Acceptance.{IsStorable}
use windows_fileserver_heatm.EndToEnd.{CarriesRows, CarriesFooter, header_of}
use windows_fileserver_heatm.EndToEnd.Delivery.{meta_of}
use windows_fileserver_heatm.EndToEnd.Series.{
  Attempt, IsPosting, IsDeliverable, AreDeliverable, Delivered, rows_at, post_all,
  post_all_delivers,
}
use windows_fileserver_heatm.Tests.Agent.{ascii_platform}
use windows_fileserver_heatm.Tests.Collector.{run_a}
use windows_fileserver_heatm.Tests.Database.{plain_engine, empty_store-IsWellFormed}
use windows_fileserver_heatm.Tests.Server.{quiet_host, quiet_disk-IsHealthy}
use windows_fileserver_heatm.Tests.Delivery.{
  at_timeout, one_read, posting, the_row, before_post, server_ok, run_ok,
}

-- The header's line has the number of the dump.
abbrev pub numbered : Serializer
numbered (Emit.header server run_id seq at walked) = some (b'H' ∷ (seq + b'0') ∷ [])
numbered (Emit.row share path day reads writes alloc flags) = some (text "R")
numbered (Emit.footer n) = some (text "F")

abbrev run_b : Text
run_b = text "650e8400-e29b-41d4-a716-446655440000"

-- A header of the agent's run, or of another.
abbrev read_header : Text → Result Text RawHeader
read_header (h ∷ n ∷ []) = ok (record {
  kind = text "header";
  server = some (text "fs1");
  run_id = some (if h == b'H' then run_a else run_b);
  dump_seq = some (n - b'0');
  emitted_at = some (text "2026-06-10T00:00:00Z");
})
read_header _ = err []

abbrev pub numbered_wire : Wire
numbered_wire = record {
  is_utf8 = λ s. true;
  header_from_str = read_header;
  body_from_str = λ s. if s == text "R" then ok (row the_row) else ok (footer 1);
  debug = λ s. s;
}

abbrev second : FlushCtx
second = record posting { dump_seq = 2 }

-- The moment, after some opens without data access.
abbrev pub skipping : ℕ → Moment
skipping n = record at_timeout { engine = record one_read { metadata_skipped = n } }

abbrev Deliverable : ℕ → FlushCtx → Type 0
Deliverable n ctx =
    IsDeliverable ascii_platform numbered numbered_wire plain_engine run_a ctx (skipping n)
      quiet_host

carried_row :
    (n : ℕ) → CarriesRows numbered numbered_wire (emit_rows ascii_platform (skipping n).engine)
unfolding emit_rows key_rows outcome classify_key kept_as resolve_name sort_by insert_by
carried_row n = (
  record {
    written = text "R";
    serialized = refl;
    one_line = (λ e. omega arith, tt);
    read_back = refl;
  },
  tt,
)

carried_footer :
    (n : ℕ)
    → CarriesFooter numbered numbered_wire (length (emit_rows ascii_platform (skipping n).engine))
unfolding emit_rows key_rows outcome classify_key kept_as resolve_name sort_by insert_by
carried_footer n = record {
  written = text "F";
  serialized = refl;
  one_line = (λ e. omega arith, tt);
  read_back = refl;
}

storable :
    (n : ℕ) (ctx : FlushCtx)
    → ctx.run_id ≡ run_a
    → IsStorable plain_engine
        (header_of numbered numbered_wire (meta_of ctx (skipping n)))
        (rows_at ascii_platform numbered numbered_wire plain_engine (skipping n))
        run_a
unfolding emit_rows key_rows outcome classify_key kept_as resolve_name sort_by insert_by
    strip_utc_suffix split_once
storable n ctx same = record {
  time = text "2026-06-10T00:00:00Z";
  ts = text "2026-06-10T00:00:00";
  at = text "2026-06-10T00:00:00";
  run_eq = ap (λ r. ok r) same;
  time_eq = refl;
  ts_eq = refl;
  at_eq = refl;
  counts = ((omega arith, omega arith), tt);
}

pub first_dump_ok : (n : ℕ) → Deliverable n posting
unfolding emit_rows key_rows outcome classify_key kept_as resolve_name sort_by insert_by document
    push_line push_rows
first_dump_ok n = record {
  header = record {
    written = text "H1";
    serialized = refl;
    one_line = (λ e. omega arith, (λ e. omega arith, tt));
    read_back = refl;
  };
  rows = carried_row n;
  footer = carried_footer n;
  utf8 = refl;
  fits = omega arith;
  read = refl;
  healthy = quiet_disk-IsHealthy;
  storable = storable n posting refl;
}

pub second_dump_ok : (n : ℕ) → Deliverable n second
unfolding emit_rows key_rows outcome classify_key kept_as resolve_name sort_by insert_by document
    push_line push_rows
second_dump_ok n = record {
  header = record {
    written = text "H2";
    serialized = refl;
    one_line = (λ e. omega arith, (λ e. omega arith, tt));
    read_back = refl;
  };
  rows = carried_row n;
  footer = carried_footer n;
  utf8 = refl;
  fits = omega arith;
  read = refl;
  healthy = quiet_disk-IsHealthy;
  storable = storable n second refl;
}

abbrev pub posts : IsPosting ascii_platform numbered numbered_wire plain_engine posting
posts = record { collector = refl; server = server_ok; uuid = run_ok }

-- A dump of the other run.
abbrev pub other_dump : Request
other_dump = record { method = post; url = text "/ingest"; body = text "O7\nR\nF\n" }

abbrev pub others : List (Host × Request)
others = (quiet_host, other_dump) ∷ []

abbrev pub other_header : Header
other_header = record {
  server = text "fs1";
  run_id = run_b;
  dump_seq = 7;
  emitted_at = some (text "2026-06-10T00:00:00Z");
}

pub classified :
    classify numbered_wire (take (max_body + 1) other_dump.body)
    ≡ accepted other_header (the_row ∷ [])
unfolding classify classify_lines classify_body parse_header validate_naming is_valid_server
    is_valid_uuid parse_body_lines body_loop body_step check_footer split_ndjson split
classified = refl

abbrev first_byte : Result IngestError Text → ℕ
first_byte (ok (c ∷ s)) = c
first_byte _ = 0

abbrev header_of_disposition : Disposition → Header
header_of_disposition (accepted header rows) = header
header_of_disposition (rejected header reason) = header
header_of_disposition (malformed reason) = other_header

pub others-IsForeign : AdmitsAll numbered_wire (IsForeign plain_engine run_a) others
others-IsForeign = (
  λ header rows e same.
      let its_run : run_b ≡ header.run_id =
        ap (λ d. (header_of_disposition d).run_id) (sym classified ∙ e) in
      let clash : first_byte (ok run_b) ≡ first_byte (ok run_a) =
        ap (λ r. first_byte (ok r)) its_run ∙ ap first_byte same in
      absurd (omega (arith, clash)),
  tt,
)

abbrev one_lost : List Attempt
one_lost = ([], at_timeout, none) ∷ (others, at_timeout, some quiet_host) ∷ []

one_lost_ok :
    AreDeliverable ascii_platform numbered numbered_wire plain_engine run_a posting one_lost
unfolding flush
one_lost_ok = (tt, (others-IsForeign, second_dump_ok 0, tt))

post_all_delivers_example :
    Delivered ascii_platform numbered numbered_wire plain_engine run_a
      (text "fs1")
      one_lost
      empty_store
      (post_all ascii_platform numbered numbered_wire plain_engine posting one_lost before_post)
unfolding lookup
post_all_delivers_example =
    post_all_delivers ascii_platform numbered numbered_wire plain_engine run_a (λ n small. refl)
      (λ n m h. ground arith) posting one_lost before_post empty_store posts (omega arith)
      (omega arith) one_lost_ok refl empty_store-IsWellFormed tt

serve-HasSameRun_example :
    HasSameRun run_a empty_store (serve numbered_wire plain_engine others before_post).0.db
serve-HasSameRun_example =
    serve-HasSameRun numbered_wire plain_engine run_a (λ n m h. ground arith) others before_post
      empty_store others-IsForeign refl empty_store-IsWellFormed
