-- ===== src/Collector/Query.antt =====
-- collector/src/query.rs: the query string, the knobs of a request, and the text of the SQL that
-- finds the newest day in scope.
pub mod Decoding
pub mod Statements
pub mod Params
pub mod Responses
pub mod Totals
pub mod Like
use windows_fileserver_heatm.Prelude.{
  ℕ, ◌+◌, ◌-◌, ◌*◌, ◌<◌, Option, none, some, List, [], ◌∷◌, ◌++◌, Bool, true, false, not, ◌&&◌,
  ◌||◌, if◌then◌else◌, ltb, leb,
}
use windows_fileserver_heatm.Prelude.Int.{ℤ, pos, leb_ℤ, ltb_ℤ}
use windows_fileserver_heatm.Prelude.Order.{nat_ord, list_ord, ◌==◌}
use windows_fileserver_heatm.Prelude.Map.{Map, lookup, insert}
use windows_fileserver_heatm.Prelude.Text.{Text, text, split, split_once, is_empty, backslash}
use windows_fileserver_heatm.Prelude.Result.{Result, ok, err, ◌>>=◌}

abbrev pub hex_val : ℕ → Option ℕ
hex_val c =
    if leb b'0' c && leb c b'9'
    then some (c - b'0')
    else if leb b'a' c && leb c b'f'
    then some (c - b'a' + 10)
    else if leb b'A' c && leb c b'F'
    then some (c - b'A' + 10)
    else none

-- The byte of an escape `%XX`.
abbrev pub escaped : ℕ → ℕ → ℕ → Option ℕ
escaped c high low =
    if c == b'%'
    then elim (hex_val high) [
      | none ↦ none
      | some h ↦ elim (hex_val low) [ none ↦ none | some l ↦ some (h * 16 + l) ]
    ]
    else none

abbrev pub plus_to_space : ℕ → ℕ
plus_to_space c = if c == b'+' then b' ' else c

-- The bytes that `percent_decode` gathers, before the lossy conversion to text.
unfoldable pub percent_bytes : Text → Text
percent_bytes [] = []
percent_bytes (c ∷ []) = plus_to_space c ∷ []
percent_bytes (c ∷ d ∷ []) = plus_to_space c ∷ percent_bytes (d ∷ [])
percent_bytes (c ∷ high ∷ low ∷ s) = elim (escaped c high low) [
  | some v ↦ v ∷ percent_bytes s
  | none ↦ plus_to_space c ∷ percent_bytes (high ∷ low ∷ s)
]

-- What the module takes from the standard library: `String::from_utf8_lossy`, `str::trim`, the
-- parsing of an `i64`, and the type `f64` with its parsing, its constants, its tests `< 0.0` and
-- `!= 0.0`, its sum and quotient, and the cast of an `i64`.
pub record Std : Type 1 where
  pub F64 : Type 0
  pub parse_f64 : Text → Option F64
  pub one : F64
  pub two : F64
  pub zero : F64
  pub is_negative : F64 → Bool
  pub is_nonzero : F64 → Bool
  pub add : F64 → F64 → F64
  pub div : F64 → F64 → F64
  pub of_i64 : ℤ → F64
  pub parse_i64 : Text → Option ℤ
  pub from_utf8_lossy : Text → Text
  pub trim : Text → Text

module _ (std : Std) where
  unfoldable pub percent_decode : Text → Text
  percent_decode s = std.from_utf8_lossy (percent_bytes s)

  -- One round of the loop over the pairs.
  abbrev pub insert_pair : Text → Map Text Text → Map Text Text
  insert_pair pair m = if is_empty pair then m else elim (split_once b'=' pair) [
    | some (k, v) ↦ insert (percent_decode k) (percent_decode v) m
    | none ↦ insert (percent_decode pair) (percent_decode []) m
  ]

  unfoldable pub insert_pairs : List Text → Map Text Text → Map Text Text
  insert_pairs [] m = m
  insert_pairs (pair ∷ pairs) m = insert_pairs pairs (insert_pair pair m)

  unfoldable pub parse_query_string : Text → Map Text Text
  parse_query_string q = insert_pairs (split b'&' q) []

  pub record Knobs : Type 0 where
    pub w_read : std.F64
    pub w_write : std.F64
    pub window : ℤ
    pub min_span : ℤ
    pub depth : ℤ
    pub limit : ℤ
    pub server : Option Text
    pub share : Option Text
    pub parent : Option Text

  -- `Knobs::default()`.
  abbrev pub default_knobs : Knobs
  default_knobs = record {
    w_read = std.one;
    w_write = std.two;
    window = pos 30;
    min_span = pos 3;
    depth = pos 1;
    limit = pos 50;
    server = none;
    share = none;
    parent = none;
  }

  -- A knob that is given must parse.
  abbrev pub parse_or : {A : Type 0} → (Text → Option A) → Option Text → A → Text → Result Text A
  parse_or parse none default message = ok default
  parse_or parse (some v) default message = elim (parse v) [ some a ↦ ok a | none ↦ err message ]

  abbrev pub non_empty : Option Text → Option Text
  non_empty none = none
  non_empty (some v) = if is_empty (std.trim v) then none else some (std.trim v)

  -- The first part of `parse_knobs`.
  unfoldable pub read_knobs : Map Text Text → Result Text Knobs
  read_knobs m = do
    w_read ←
        parse_or std.parse_f64 (lookup (text "w_read") m) std.one (text "w_read must be a number")
    w_write ←
        parse_or std.parse_f64 (lookup (text "w_write") m) std.two (text "w_write must be a number")
    window ←
        parse_or std.parse_i64 (lookup (text "window") m) (pos 30)
          (text "window must be an integer")
    min_span ←
        parse_or std.parse_i64 (lookup (text "min_span") m) (pos 3)
          (text "min_span must be an integer")
    depth ←
        parse_or std.parse_i64 (lookup (text "depth") m) (pos 1) (text "depth must be an integer")
    limit ←
        parse_or std.parse_i64 (lookup (text "limit") m) (pos 50) (text "limit must be an integer")
    ok (record {
      w_read = w_read;
      w_write = w_write;
      window = window;
      min_span = min_span;
      depth = depth;
      limit = limit;
      server = non_empty (lookup (text "server") m);
      share = non_empty (lookup (text "share") m);
      parent = non_empty (lookup (text "parent") m);
    })

  abbrev pub between : ℕ → ℕ → ℤ → Bool
  between low high x = leb_ℤ (pos low) x && leb_ℤ x (pos high)

  -- The second part: the ranges.
  unfoldable pub check_knobs : Knobs → Result Text Knobs
  check_knobs k =
      if not (between 1 16 k.depth)
      then err (text "depth must be between 1 and 16")
      else if not (between 1 3650 k.window)
      then err (text "window must be between 1 and 3650")
      else if std.is_negative k.w_read || std.is_negative k.w_write
      then err (text "weights must be >= 0")
      else if not (between 1 1000 k.limit)
      then err (text "limit must be between 1 and 1000")
      else if ltb_ℤ k.min_span (pos 0)
      then err (text "min_span must be >= 0")
      else ok k

  unfoldable pub parse_knobs : Text → Result Text Knobs
  parse_knobs query = read_knobs (parse_query_string query) >>= check_knobs

-- The metacharacters of LIKE, each behind `!`.
unfoldable pub escape_like : Text → Text
escape_like [] = []
escape_like (c ∷ s) =
    if c == b'!' || c == b'%' || c == b'_' then b'!' ∷ c ∷ escape_like s else c ∷ escape_like s
