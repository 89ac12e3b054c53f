-- ===== src/Tests/Collector.antt =====
-- The collector's parser with a toy codec in place of the JSON library: `H`, `R` and a path, or `F`
-- and a digit on a line.
use windows_fileserver_heatm.Prelude.{
  ℕ, ◌+◌, ◌-◌, ◌≢◌, ◌≡◌, refl, ◌↔◌, none, some, List, [], ◌∷◌, true, length, take, arith,
}
use windows_fileserver_heatm.Prelude.Lists.{All}
use windows_fileserver_heatm.Prelude.Tests.{if◌then◌else◌}
use windows_fileserver_heatm.Prelude.Order.{nat_ord, ◌==◌}
use windows_fileserver_heatm.Prelude.Int.{pos}
use windows_fileserver_heatm.Prelude.Text.{Text, text, split}
use windows_fileserver_heatm.Agent.Correlation.Emission.{EmitRow}
use windows_fileserver_heatm.Agent.Emit
use windows_fileserver_heatm.Agent.Emit.{Meta, Serializer, header_line, document}
use windows_fileserver_heatm.Prelude.Result.{Result, ok, err}
use windows_fileserver_heatm.Collector.Ingest.{
  Header, DumpRow, BodyLine, row, footer, Wire, accepted, is_valid_server, is_valid_uuid,
  archive_rel_path, validate_naming, parse_body_lines, classify,
}
use windows_fileserver_heatm.Collector.Ingest.Framing.{IsFramed, parse_body_lines_iff}
use windows_fileserver_heatm.Collector.Ingest.Naming.{
  archive_rel_path_contained, IsPlain, file_name,
}
use windows_fileserver_heatm.EndToEnd.{Carries, header_of, classify-document}

abbrev pub run_a : Text
run_a = text "550e8400-e29b-41d4-a716-446655440000"

abbrev meta : Meta
meta = record {
  server = text "fs1";
  run_id = run_a;
  dump_seq = 2;
  emitted_at = text "2026-06-10T00:00:00Z";
  walked_shares = [];
}

abbrev toy_to_string : Serializer
toy_to_string (Emit.header server run_id seq at walked) = some (text "H")
toy_to_string (Emit.row share path day reads writes alloc flags) = some (b'R' ∷ path)
toy_to_string (Emit.footer n) = some (b'F' ∷ (48 + n) ∷ [])

abbrev toy_row : Text → DumpRow
toy_row path = record {
  share = text "docs";
  path = path;
  day = pos 3;
  reads = 1;
  writes = 0;
  alloc_bytes = none;
  flags = [];
}

abbrev toy_digit : Text → ℕ
toy_digit [] = 0
toy_digit (c ∷ s) = c - 48

abbrev toy_body : Text → Result Text BodyLine
toy_body [] = err (text "empty")
toy_body (c ∷ s) =
    if c == b'R'
    then ok (row (toy_row s))
    else if c == b'F'
    then ok (footer (toy_digit s))
    else err (text "what?")

abbrev pub toy_wire : Wire
toy_wire = record {
  is_utf8 = λ s. true;
  header_from_str = λ s. ok (record {
    kind = text "header";
    server = some (text "fs1");
    run_id = some run_a;
    dump_seq = some 2;
    emitted_at = some (text "2026-06-10T00:00:00Z");
  });
  body_from_str = toy_body;
  debug = λ s. s;
}

parse_body_lines_iff_example :
    (parse_body_lines toy_wire (text "Ra" ∷ text "F1" ∷ []) ≡ ok (toy_row (text "a") ∷ []))
    ↔ IsFramed toy_wire (text "Ra" ∷ text "F1" ∷ []) (toy_row (text "a") ∷ [])
parse_body_lines_iff_example =
    parse_body_lines_iff toy_wire (text "Ra" ∷ text "F1" ∷ []) (toy_row (text "a") ∷ [])

abbrev emitted : List EmitRow
emitted =
    record {
      share = text "docs";
      path = text "a";
      day = pos 3;
      reads = 1;
      writes = 0;
      alloc_bytes = none;
      flags = [];
    }
    ∷ []

header_carried :
    Carries toy_to_string toy_wire
      (header_line toy_to_string meta)
      (λ t. toy_wire.header_from_str t ≡ toy_wire.header_from_str (text "H"))
header_carried = record {
  written = text "H";
  serialized = refl;
  one_line = (λ e. omega arith, tt);
  read_back = refl;
}

server_ok : is_valid_server (text "fs1") ≡ true
unfolding is_valid_server
server_ok = refl

run_ok : is_valid_uuid run_a ≡ true
unfolding is_valid_uuid split
run_ok = refl

naming_ok : validate_naming toy_wire (header_of toy_to_string toy_wire meta) ≡ ok tt
unfolding validate_naming is_valid_server is_valid_uuid split
naming_ok = refl

classify-document_example :
    classify toy_wire (document toy_to_string meta emitted)
    ≡ accepted (header_of toy_to_string toy_wire meta) (toy_row (text "a") ∷ [])
classify-document_example =
    classify-document toy_to_string toy_wire meta emitted header_carried
      (
        record {
          written = text "Ra";
          serialized = refl;
          one_line = (λ e. omega arith, (λ e. omega arith, tt));
          read_back = refl;
        },
        tt,
      )
      (record {
        written = text "F1";
        serialized = refl;
        one_line = (λ e. omega arith, (λ e. omega arith, tt));
        read_back = refl;
      })
      refl server_ok run_ok (omega arith)

-- The header that is written.
abbrev header : Header
header = header_of toy_to_string toy_wire meta

archive_rel_path_contained_example :
    (split b'/' (archive_rel_path header.server header.run_id 2)
      ≡ header.server ∷ file_name header ∷ [])
    × (header.server ≢ [])
    × All IsPlain header.server
    × (length (take 8 header.run_id) ≡ 8)
    × All IsPlain (take 8 header.run_id)
archive_rel_path_contained_example =
    archive_rel_path_contained toy_wire (header_of toy_to_string toy_wire meta) naming_ok
