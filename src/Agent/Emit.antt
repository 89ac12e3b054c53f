-- ===== src/Agent/Emit.antt =====
-- agent/src/emit.rs: one flush as newline-delimited JSON.
use windows_fileserver_heatm.Prelude.{ℕ, Option, none, some, List, [], ◌∷◌, ◌++◌, length}
use windows_fileserver_heatm.Prelude.Int.{ℤ}
use windows_fileserver_heatm.Prelude.Order.{nat_ord, cmp_list}
use windows_fileserver_heatm.Prelude.Sort.{sort_by}
use windows_fileserver_heatm.Prelude.Text.{Text, newline}
use windows_fileserver_heatm.Agent.Correlation.Emission.{EmitRow}

pub record Meta : Type 0 where
  pub server : Text
  pub run_id : Text
  pub dump_seq : ℕ
  pub emitted_at : Text
  pub walked_shares : List Text

pub data Line : Type 0 where
  -- server, run_id, dump_seq, emitted_at, walked_shares
  header : Text → Text → ℕ → Text → List Text → Line
  -- share, path, day, reads, writes, alloc_bytes, flags
  row : Text → Text → ℤ → ℕ → ℕ → Option ℕ → List Text → Line
  footer : ℕ → Line

-- `serde_json::to_string` of a line, `none` where it fails.
abbrev pub Serializer : Type 0
Serializer = Line → Option Text

module _ (to_string : Serializer) where
  -- A line that does not serialize is left out (and logged).
  unfoldable pub push_line : Text → Line → Text
  push_line out line = elim (to_string line) [ some s ↦ out ++ (s ++ newline ∷ []) | none ↦ out ]

  abbrev pub header_line : Meta → Line
  header_line meta =
      header meta.server meta.run_id meta.dump_seq meta.emitted_at
        (sort_by cmp_list meta.walked_shares)

  unfoldable pub push_rows : Text → List EmitRow → Text
  push_rows out [] = out
  push_rows out (r ∷ rows) =
      push_rows (push_line out (row r.share r.path r.day r.reads r.writes r.alloc_bytes r.flags))
        rows

  unfoldable pub document : Meta → List EmitRow → Text
  document meta rows =
      push_line (push_rows (push_line [] (header_line meta)) rows) (footer (length rows))
