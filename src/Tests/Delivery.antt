-- ===== src/Tests/Delivery.antt =====
-- A flush of one row, posted to a collector with an empty database.
use windows_fileserver_heatm.Prelude.{
  ◌≡◌, refl, some, none, [], ◌∷◌, true, false, map, if◌then◌else◌,
}
use windows_fileserver_heatm.Prelude.Int.{pos}
use windows_fileserver_heatm.Prelude.Order.{nat_ord, int_ord, list_ord, pair_ord, option_ord, ◌==◌}
use windows_fileserver_heatm.Prelude.Map.{lookup, insert, modify}
use windows_fileserver_heatm.Prelude.Sort.{sort_by, insert_by}
use windows_fileserver_heatm.Prelude.Result.{ok}
use windows_fileserver_heatm.Prelude.Text.{Text, text, split, split_once}
use windows_fileserver_heatm.Agent.Correlation.{CorrelationEngine, empty_engine, resolve_name}
use windows_fileserver_heatm.Agent.Correlation.Emission.{
  emit_rows, key_rows, outcome, classify_key, kept_as,
}
use windows_fileserver_heatm.Agent.Emit
use windows_fileserver_heatm.Agent.Emit.{Serializer, document, header_line, push_line, push_rows}
use windows_fileserver_heatm.Agent.Flusher.{FlushCtx, Moment, timeout, flush}
use windows_fileserver_heatm.Collector.Ingest.{
  DumpRow, row, footer, Wire, is_valid_server, is_valid_uuid,
}
use windows_fileserver_heatm.Collector.Db
use windows_fileserver_heatm.Collector.Db.{
  Store, FileKey, empty_store, ingest, strip_utc_suffix, gate, apply_dump, ingest_rows, ingest_row,
  upsert_dimension, upsert_found, put_fact,
}
use windows_fileserver_heatm.Collector.Server.{State}
use windows_fileserver_heatm.EndToEnd.{dump_row, header_of}
use windows_fileserver_heatm.EndToEnd.Delivery.{meta_of}
use windows_fileserver_heatm.Tests.Agent.{ascii_platform}
use windows_fileserver_heatm.Tests.Collector.{run_a}
use windows_fileserver_heatm.Tests.Database.{plain_engine}

-- One read of a file of a share without a name.
abbrev pub one_read : CorrelationEngine
one_read = record empty_engine {
  heat = ((none, text "a"), (pos 3, record { reads = 1; writes = 0 }) ∷ []) ∷ [];
  opens_total = 1;
}

abbrev pub at_timeout : Moment
at_timeout = record { wake = timeout; engine = one_read; rfc3339_now = text "2026-06-10T00:00:00Z" }

abbrev pub posting : FlushCtx
posting = record {
  server = text "fs1";
  run_id = run_a;
  walked_shares = [];
  emit_dir = false;
  collector = true;
  dump_seq = 1;
}

abbrev one_letter : Serializer
one_letter (Emit.header server run_id seq at walked) = some (text "H")
one_letter (Emit.row share path day reads writes alloc flags) = some (text "R")
one_letter (Emit.footer n) = some (text "F")

abbrev pub the_row : DumpRow
the_row = record {
  share = text "unknown";
  path = text "a";
  day = pos 3;
  reads = 1;
  writes = 0;
  alloc_bytes = none;
  flags = text "unresolved_share" ∷ [];
}

abbrev one_letter_wire : Wire
one_letter_wire = record {
  is_utf8 = λ s. true;
  header_from_str = λ s. ok (record {
    kind = text "header";
    server = some (text "fs1");
    run_id = some run_a;
    dump_seq = some 1;
    emitted_at = some (text "2026-06-10T00:00:00Z");
  });
  body_from_str = λ s. if s == text "R" then ok (row the_row) else ok (footer 1);
  debug = λ s. s;
}

abbrev doc : Text
doc = 72 ∷ 10 ∷ 82 ∷ 10 ∷ 70 ∷ 10 ∷ []

abbrev pub before_post : State
before_post = record { archive = []; db = some empty_store }

abbrev stored : Store
stored = record {
  next_id = 2;
  files =
      (
        (text "fs1", (text "unknown", text "a")),
        record {
          file_id = 1;
          alloc_bytes = none;
          restat = false;
          unresolved_share = true;
          first_seen = text "2026-06-10T00:00:00";
          last_seen = text "2026-06-10T00:00:00";
        },
      )
      ∷ [];
  runs =
      (
        run_a,
        record {
          server = text "fs1";
          started_at = text "2026-06-10T00:00:00";
          last_dump_seq = pos 1;
          last_dump_at = text "2026-06-10T00:00:00";
        },
      )
      ∷ [];
  day_counts = ((1, (run_a, pos 3)), (1, 0)) ∷ [];
}

flushed : (flush ascii_platform one_letter posting at_timeout).1.ndjson ≡ some doc
unfolding flush document push_line push_rows emit_rows key_rows outcome classify_key kept_as
    resolve_name sort_by insert_by
flushed = refl

pub server_ok : is_valid_server (text "fs1") ≡ true
unfolding is_valid_server
server_ok = refl

pub run_ok : is_valid_uuid run_a ≡ true
unfolding is_valid_uuid split
run_ok = refl

stored_ok :
    ingest plain_engine empty_store
      (header_of one_letter one_letter_wire (meta_of posting at_timeout))
      (map dump_row (emit_rows ascii_platform one_read))
    ≡ ok (stored, Db.accepted)
unfolding ingest gate apply_dump ingest_rows ingest_row upsert_dimension upsert_found put_fact
    strip_utc_suffix split_once insert modify lookup emit_rows key_rows outcome classify_key kept_as
    resolve_name sort_by insert_by
stored_ok = refl
