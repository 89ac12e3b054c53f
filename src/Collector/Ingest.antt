-- ===== src/Collector/Ingest.antt =====
-- collector/src/ingest.rs: parsing, validation and archive naming of one dump, with no I/O.
pub mod Framing
pub mod Lines
pub mod Naming
pub mod Distinct
use windows_fileserver_heatm.Prelude.{
  ℕ, zero, suc, ◌+◌, ◌-◌, Option, none, some, List, [], ◌∷◌, ◌++◌, Bool, true, false, not, ◌&&◌,
  ◌||◌, if◌then◌else◌, ltb, length, take, all,
}
use windows_fileserver_heatm.Prelude.Int.{ℤ}
use windows_fileserver_heatm.Prelude.Order.{nat_ord, list_ord, ◌==◌}
use windows_fileserver_heatm.Prelude.Text.{
  Text, text, split, decimal, cat, newline, is_ascii_lowercase, is_ascii_digit, is_ascii_hexdigit,
}
use windows_fileserver_heatm.Prelude.Result.{Result, ok, err, ◌>>=◌, ok_or}

pub record RawHeader : Type 0 where
  pub kind : Text
  pub server : Option Text
  pub run_id : Option Text
  pub dump_seq : Option ℕ
  pub emitted_at : Option Text

pub record Header : Type 0 where
  pub server : Text
  pub run_id : Text
  pub dump_seq : ℕ
  pub emitted_at : Option Text

pub record DumpRow : Type 0 where
  pub share : Text
  pub path : Text
  pub day : ℤ
  pub reads : ℕ
  pub writes : ℕ
  pub alloc_bytes : Option ℕ
  pub flags : List Text

pub data BodyLine : Type 0 where
  row : DumpRow → BodyLine
  footer : ℕ → BodyLine

pub data Disposition : Type 0 where
  malformed : Text → Disposition
  rejected : Header → Text → Disposition
  accepted : Header → List DumpRow → Disposition

-- What the module takes from the standard library and serde_json: the test of
-- `std::str::from_utf8`, `serde_json::from_str` at the two types, with the text of its error, and
-- the `Debug` form of a string.
pub record Wire : Type 0 where
  pub is_utf8 : Text → Bool
  pub header_from_str : Text → Result Text RawHeader
  pub body_from_str : Text → Result Text BodyLine
  pub debug : Text → Text

-- The variables of the loop over the lines: the rows, and the number that the footer declares.
abbrev pub Progress : Type 0
Progress = List DumpRow × Option ℕ

-- The pieces without the last one, if that one is empty.
abbrev pub drop_last_empty : List Text → List Text
drop_last_empty [] = []
drop_last_empty ([] ∷ []) = []
drop_last_empty (p ∷ ps) = p ∷ drop_last_empty ps

unfoldable pub split_ndjson : Text → List Text
split_ndjson body = drop_last_empty (split newline body)

abbrev pub is_lower_or_digit : ℕ → Bool
is_lower_or_digit c = is_ascii_lowercase c || is_ascii_digit c

unfoldable pub is_valid_server : Text → Bool
is_valid_server [] = false
is_valid_server (c ∷ s) = is_lower_or_digit c && all (λ d. is_lower_or_digit d || d == b'-') s

abbrev pub groups : List ℕ
groups = 8 ∷ 4 ∷ 4 ∷ 4 ∷ 12 ∷ []

abbrev pub group_ok : Text → ℕ → Bool
group_ok p len = length p == len && all is_ascii_hexdigit p

abbrev pub zip_all : List Text → List ℕ → Bool
zip_all (p ∷ ps) (n ∷ ns) = group_ok p n && zip_all ps ns
zip_all _ _ = true

unfoldable pub is_valid_uuid : Text → Bool
is_valid_uuid s =
    let parts = split b'-' s in
    if length parts == length groups then zip_all parts groups else false

-- The slice `run_id[..8]` panics on a shorter text, or inside a character; callers have validated
-- the run id.
unfoldable pub archive_rel_path : Text → Text → ℕ → Text
archive_rel_path server run_id dump_seq =
    cat (server ∷ text "/" ∷ take 8 run_id ∷ text "-" ∷ decimal dump_seq ∷ text ".ndjson" ∷ [])

module _ (wire : Wire) where
  unfoldable pub parse_header : Text → Result Text Header
  parse_header line = elim (wire.header_from_str line) [
    | err e ↦ err (text "header line is not valid JSON: " ++ e)
    | ok raw ↦
        if not (raw.kind == text "header")
        then err
            (cat (text "first line type is " ∷ wire.debug raw.kind ∷ text ", not \"header\"" ∷ []))
        else (do
          server ← ok_or raw.server (text "header missing \"server\"")
          run_id ← ok_or raw.run_id (text "header missing \"run_id\"")
          dump_seq ← ok_or raw.dump_seq (text "header missing \"dump_seq\"")
          ok (record {
            server = server;
            run_id = run_id;
            dump_seq = dump_seq;
            emitted_at = raw.emitted_at;
          }))
  ]

  unfoldable pub validate_naming : Header → Result Text (Unit {0})
  validate_naming h =
      if not (is_valid_server h.server)
      then err (text "invalid server name " ++ wire.debug h.server)
      else if not (is_valid_uuid h.run_id)
      then err (text "invalid run_id " ++ wire.debug h.run_id)
      else if ltb h.dump_seq 1
      then err (cat (text "dump_seq " ∷ decimal h.dump_seq ∷ text " < 1" ∷ []))
      else ok tt

  -- One round of the loop over the lines after the header, at the line of index `i` of `n`: the
  -- rows and the footer so far, or the error that is returned at once.
  unfoldable pub body_step : ℕ → ℕ → Result Text BodyLine → Progress → Result Text Progress
  body_step i n (err e) (rows, footer_rows) =
      err (cat (text "line " ∷ decimal (i + 2) ∷ text " is not a valid row/footer: " ∷ e ∷ []))
  body_step i n (ok (row r)) (rows, some _) =
      err (cat (text "row on line " ∷ decimal (i + 2) ∷ text " follows the footer" ∷ []))
  body_step i n (ok (row r)) (rows, none) = ok (rows ++ r ∷ [], none)
  body_step i n (ok (footer declared)) (rows, some _) = err (text "more than one footer")
  body_step i n (ok (footer declared)) (rows, none) =
      if not (i == n - 1)
      then err (text "footer is not the last line")
      else ok (rows, some declared)

  unfoldable pub body_loop : List Text → ℕ → ℕ → Progress → Result Text Progress
  body_loop [] i n progress = ok progress
  body_loop (line ∷ lines) i n progress =
      body_step i n (wire.body_from_str line) progress >>= λ p. body_loop lines (i + 1) n p

  -- The checks after the loop.
  unfoldable pub check_footer : Progress → Result Text (List DumpRow)
  check_footer (rows, none) = err (text "missing footer")
  check_footer (rows, some declared) =
      if not (declared == length rows)
      then err (
          cat (
            text "footer rows="
            ∷ decimal declared
            ∷ text " but counted "
            ∷ decimal (length rows)
            ∷ text " row lines"
            ∷ []))
      else ok rows

  unfoldable pub parse_body_lines : List Text → Result Text (List DumpRow)
  parse_body_lines lines = body_loop lines 0 (length lines) ([], none) >>= check_footer

  -- What follows once the header is known.
  unfoldable pub classify_body : Header → List Text → Disposition
  classify_body header lines = elim (validate_naming header) [
    | err reason ↦ malformed reason
    | ok _ ↦ elim (parse_body_lines lines) [
      | ok rows ↦ accepted header rows
      | err reason ↦ rejected header reason
    ]
  ]

  unfoldable pub classify_lines : List Text → Disposition
  classify_lines [] = malformed (text "empty body")
  classify_lines (first ∷ rest) = elim (parse_header first) [
    | err reason ↦ malformed reason
    | ok header ↦ classify_body header rest
  ]

  unfoldable pub classify : Text → Disposition
  classify body =
      if not (wire.is_utf8 body)
      then malformed (text "body is not valid UTF-8")
      else classify_lines (split_ndjson body)

-- The first eight characters, for logs; on ASCII these are bytes.
abbrev pub run8 : Text → Text
run8 run_id = take 8 run_id
