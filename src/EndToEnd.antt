-- ===== src/EndToEnd.antt =====
-- From the agent to the collector: what agent/src/emit.rs writes, collector/src/ingest.rs reads back.
-- The JSON library is a parameter on both sides.
pub mod Delivery
pub mod Series
pub mod Losses
pub mod Final
use mathlib.Core.List.{append_assoc, append-nil}
use windows_fileserver_heatm.Prelude.{
  ℕ, ◌≤◌, ◌≡◌, refl, sym, ◌∙◌, ap, some, List, [], ◌∷◌, ◌++◌, true, length, length-map, map, arith,
}
use windows_fileserver_heatm.Prelude.Text.{Text, text, newline, split, Free, split-append}
use windows_fileserver_heatm.Agent.Correlation.Emission.{EmitRow}
use windows_fileserver_heatm.Agent.Emit
use windows_fileserver_heatm.Agent.Emit.{
  Meta, Serializer, header_line, push_line, push_rows, document,
}
use windows_fileserver_heatm.Prelude.Result.{ok}
use windows_fileserver_heatm.Collector.Ingest.{
  Header, DumpRow, row, footer, Wire, accepted, drop_last_empty, split_ndjson, is_valid_server,
  is_valid_uuid, parse_header, validate_naming, classify_body, classify_lines, classify,
  parse_body_lines,
}
use windows_fileserver_heatm.Collector.Ingest.Framing.{ParseAs, IsFramed, parse_body_lines_iff}
use windows_fileserver_heatm.Collector.Ingest.Lines.{
  unlines, AllFree, split_ndjson-unlines, unlines-append,
}

-- The row of a dump as the collector holds it.
abbrev pub dump_row : EmitRow → DumpRow
dump_row r = record {
  share = r.share;
  path = r.path;
  day = r.day;
  reads = r.reads;
  writes = r.writes;
  alloc_bytes = r.alloc_bytes;
  flags = r.flags;
}

abbrev pub row_line : EmitRow → Emit.Line
row_line r = Emit.row r.share r.path r.day r.reads r.writes r.alloc_bytes r.flags

module _ (to_string : Serializer) (wire : Wire) where
  -- The JSON library writes a line on one line of text and reads it back.
  pub record Carries (line : Emit.Line) (Reads : Text → Type 0) : Type 0 where
    pub written : Text
    pub serialized : to_string line ≡ some written
    pub one_line : Free newline written
    pub read_back : Reads written

  abbrev pub CarriesRows : List EmitRow → Type 0
  CarriesRows [] = Unit
  CarriesRows (r ∷ rows) =
      Carries (row_line r) (λ t. wire.body_from_str t ≡ ok (row (dump_row r))) × CarriesRows rows

  abbrev pub CarriesHeader : Meta → Type 0
  CarriesHeader meta = Carries (header_line to_string meta) (λ t.
      wire.header_from_str t
      ≡ ok (record {
        kind = text "header";
        server = some meta.server;
        run_id = some meta.run_id;
        dump_seq = some meta.dump_seq;
        emitted_at = some meta.emitted_at;
      }))

  abbrev pub CarriesFooter : ℕ → Type 0
  CarriesFooter n = Carries (Emit.footer n) (λ t. wire.body_from_str t ≡ ok (footer n))

  row_texts : (rows : List EmitRow) → CarriesRows rows → List Text
  row_texts [] c = []
  row_texts (r ∷ rows) c = c.0.written ∷ row_texts rows c.1

  push_line_lem :
      (out : Text) (line : Emit.Line) (t : Text)
      → to_string line ≡ some t
      → push_line to_string out line ≡ out ++ (t ++ newline ∷ [])
  unfolding push_line
  push_line_lem out line t h = rw (h, push_line)

  push_rows_lem :
      (out : Text) (rows : List EmitRow) (c : CarriesRows rows)
      → push_rows to_string out rows ≡ out ++ unlines (row_texts rows c)
  unfolding push_rows row_texts
  push_rows_lem out [] c = sym (append-nil out)
  push_rows_lem out (r ∷ rows) c = rw (push_line_lem out (row_line r) c.0.written c.0.serialized) (
      push_rows_lem (out ++ (c.0.written ++ newline ∷ [])) rows c.1
      ∙ sym (regroup (c.0.written) (row_texts rows c.1)))
    where
      regroup :
          (t : Text) (ts : List Text)
          → out ++ (t ++ newline ∷ unlines ts) ≡ (out ++ (t ++ newline ∷ [])) ++ unlines ts
      regroup t ts =
          ap (λ u. out ++ u) (sym (append_assoc t (newline ∷ []) (unlines ts)))
          ∙ sym (append_assoc out (t ++ newline ∷ []) (unlines ts))

  -- The lines of a document.
  document_lines :
      (meta : Meta) (rows : List EmitRow)
      → CarriesHeader meta
      → CarriesRows rows
      → CarriesFooter (length rows)
      → List Text
  document_lines meta rows h c f = h.written ∷ (row_texts rows c ++ f.written ∷ [])

  document_lem :
      (meta : Meta) (rows : List EmitRow) (h : CarriesHeader meta) (c : CarriesRows rows)
      (f : CarriesFooter (length rows))
      → document to_string meta rows ≡ unlines (document_lines meta rows h c f)
  unfolding document document_lines
  document_lem meta rows h c f =
      rw (push_line_lem [] (header_line to_string meta) h.written h.serialized) (
        rw (push_rows_lem (h.written ++ newline ∷ []) rows c) (
          push_line_lem ((h.written ++ newline ∷ []) ++ unlines (row_texts rows c))
            (Emit.footer (length rows)) f.written f.serialized
          ∙ regroup h.written f.written (row_texts rows c)))
    where
      regroup :
          (a b : Text) (ts : List Text)
          → ((a ++ newline ∷ []) ++ unlines ts) ++ (b ++ newline ∷ [])
            ≡ a ++ newline ∷ unlines (ts ++ b ∷ [])
      regroup a b ts =
          append_assoc (a ++ newline ∷ []) (unlines ts) (b ++ newline ∷ [])
          ∙ append_assoc a (newline ∷ []) (unlines ts ++ (b ++ newline ∷ []))
          ∙ ap (λ t. a ++ newline ∷ t) (sym (unlines-append ts (b ∷ [])))

  AllFree-rows :
      (rows : List EmitRow) (c : CarriesRows rows) (t : Text)
      → Free newline t
      → AllFree (row_texts rows c ++ t ∷ [])
  unfolding row_texts
  AllFree-rows [] c t h = (h, tt)
  AllFree-rows (r ∷ rows) c t h = (c.0.one_line, AllFree-rows rows c.1 t h)

  ParseAs-rows :
      (rows : List EmitRow) (c : CarriesRows rows)
      → ParseAs wire (row_texts rows c) (map dump_row rows)
  unfolding row_texts
  ParseAs-rows [] c = tt
  ParseAs-rows (r ∷ rows) c = (c.0.read_back, ParseAs-rows rows c.1)

  framed :
      (rows : List EmitRow) (c : CarriesRows rows) (f : CarriesFooter (length rows))
      → IsFramed wire (row_texts rows c ++ f.written ∷ []) (map dump_row rows)
  framed rows c f = record {
    row_lines = row_texts rows c;
    last = f.written;
    split = refl;
    parsed = ParseAs-rows rows c;
    counted = f.read_back ∙ ap (λ n. ok (footer n)) (sym (length-map dump_row rows));
  }

  abbrev pub header_of : Meta → Header
  header_of meta = record {
    server = meta.server;
    run_id = meta.run_id;
    dump_seq = meta.dump_seq;
    emitted_at = some meta.emitted_at;
  }

  parse_header-written :
      (meta : Meta) (h : CarriesHeader meta) → parse_header wire h.written ≡ ok (header_of meta)
  unfolding parse_header
  parse_header-written meta h = rw (h.read_back, parse_header)

  validate_naming_lem :
      (h : Header)
      → is_valid_server h.server ≡ true
      → is_valid_uuid h.run_id ≡ true
      → 1 ≤ h.dump_seq
      → validate_naming wire h ≡ ok tt
  unfolding validate_naming
  validate_naming_lem h s u d = ground arith

  document_lines-split :
      (meta : Meta) (rows : List EmitRow) (h : CarriesHeader meta) (c : CarriesRows rows)
      (f : CarriesFooter (length rows))
      → split_ndjson (document to_string meta rows) ≡ document_lines meta rows h c f
  unfolding document_lines
  document_lines-split meta rows h c f =
      ap split_ndjson (document_lem meta rows h c f)
      ∙ split_ndjson-unlines (document_lines meta rows h c f)
          (h.one_line, AllFree-rows rows c f.written f.one_line)

  classify_lines-written :
      (meta : Meta) (rows : List EmitRow) (h : CarriesHeader meta) (c : CarriesRows rows)
      (f : CarriesFooter (length rows))
      → validate_naming wire (header_of meta) ≡ ok tt
      → classify_lines wire (document_lines meta rows h c f)
        ≡ accepted (header_of meta) (map dump_row rows)
  unfolding classify_lines classify_body document_lines
  classify_lines-written meta rows h c f valid =
      rw (parse_header-written meta h, classify_lines) (rw (valid, classify_body) (rw body refl))
    where
      body : parse_body_lines wire (row_texts rows c ++ f.written ∷ []) ≡ ok (map dump_row rows)
      body =
          (parse_body_lines_iff wire (row_texts rows c ++ f.written ∷ []) (map dump_row rows)).1
            (framed rows c f)

  -- What the agent writes in one flush, the collector accepts, with the header and the rows that
  -- were flushed. The JSON library writes the header, each row and the footer on one line each and
  -- reads them back; the body is UTF-8, the server's name and the run's id are valid, and the
  -- sequence number is at least 1.
  pub classify-document :
      (meta : Meta) (rows : List EmitRow)
      → CarriesHeader meta
      → CarriesRows rows
      → CarriesFooter (length rows)
      → wire.is_utf8 (document to_string meta rows) ≡ true
      → is_valid_server meta.server ≡ true
      → is_valid_uuid meta.run_id ≡ true
      → 1 ≤ meta.dump_seq
      → classify wire (document to_string meta rows) ≡ accepted (header_of meta) (map dump_row rows)
  unfolding classify
  classify-document meta rows h c f utf8 s u d =
      rw (utf8, document_lines-split meta rows h c f)
        (classify_lines-written meta rows h c f (validate_naming_lem (header_of meta) s u d))
