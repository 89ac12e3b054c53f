-- ===== src/Collector/Query/Statements.antt =====
-- collector/src/query.rs: the SQL of the read API, each text with the parameters that are bound to it.
use windows_fileserver_heatm.Prelude.{Option, none, some, List, [], ◌∷◌, ◌++◌}
use windows_fileserver_heatm.Prelude.Int.{ℤ}
use windows_fileserver_heatm.Prelude.Text.{Text, text, cat, join, newline, backslash}
use windows_fileserver_heatm.Collector.Query.{Std, Knobs, escape_like}

-- Lines of a statement, each but the last with its newline.
abbrev pub lines : List Text → Text
lines = join (newline ∷ [])

abbrev pub tier_columns : Text
tier_columns =
    text "{'server':'VARCHAR','share':'VARCHAR','path_prefix':'VARCHAR','tier':'VARCHAR',"
    ++ text "'migrated_on':'VARCHAR','new_server':'VARCHAR','new_share':'VARCHAR','note':'VARCHAR'}"

-- `array_to_string(list_slice(string_split(path, '\'), 1, ?), '\') AS subtree,`.
abbrev subtree_column : Text
subtree_column = cat (
    text "         array_to_string(list_slice(string_split(path, '"
    ∷ (backslash ∷ [])
    ∷ text "'), 1, ?), '"
    ∷ (backslash ∷ [])
    ∷ text "') AS subtree,"
    ∷ [])

module _ (std : Std) where
  -- One bound parameter.
  pub data P : Type 0 where
    int : ℤ → P
    float : std.F64 → P
    str : Text → P

  abbrev pub Statement : Type 0
  Statement = Text × List P

  -- `sql.push_str(piece)` and the pushes of its parameters.
  abbrev pub push : Text → List P → Statement → Statement
  push piece params (sql, p) = (sql ++ piece, p ++ params)

  -- `if let Some(s) = value { sql.push_str(clause); p.push(P::S(s)) }`.
  abbrev pub push_filter : Text → Option Text → Statement → Statement
  push_filter clause none st = st
  push_filter clause (some s) st = push clause (str s ∷ []) st

  unfoldable pub scope_anchor_statement : Option Text → Option Text → Statement
  scope_anchor_statement server share = push_filter (text " AND f.share = ?") share (
      push_filter (text " AND f.server = ?") server (
        text "SELECT MAX(dc.day_index)::BIGINT FROM day_counts dc "
            ++ text "JOIN files f USING (file_id) WHERE 1=1",
        [],
      ))

  unfoldable pub children_anchor_statement : Text → Text → Option Text → Option Text → Statement
  children_anchor_statement parent parent_like server share =
      push_filter (text " AND f.share = ?") share (
        push_filter (text " AND f.server = ?") server (
          text "SELECT MAX(dc.day_index)::BIGINT FROM day_counts dc "
              ++ text "JOIN files f USING (file_id) WHERE (f.path = ? OR f.path LIKE ? ESCAPE '!')",
          str parent ∷ str parent_like ∷ [],
        ))

  abbrev pub tier_join : Text → Text
  tier_join alias = lines (
      text "       t.tier, t.migrated_on, t.note"
      ∷ cat (
          text "FROM heat_block h JOIN bytes_block "
          ∷ alias
          ∷ text " USING (server, share, subtree)"
          ∷ [])
      ∷ text "LEFT JOIN LATERAL ("
      ∷ text "  SELECT tier, migrated_on, note"
      ∷ cat (text "  FROM read_csv(?, header=true, columns=" ∷ tier_columns ∷ text ") tl" ∷ [])
      ∷ cat (
          text "  WHERE tl.server = "
          ∷ alias
          ∷ text ".server AND tl.share = "
          ∷ alias
          ∷ text ".share"
          ∷ [])
      ∷ cat (
          text "    AND ("
          ∷ alias
          ∷ text ".subtree = tl.path_prefix OR "
          ∷ alias
          ∷ text ".subtree LIKE tl.path_prefix || '"
          ∷ (backslash ∷ [])
          ∷ text "%')"
          ∷ [])
      ∷ text "  ORDER BY LENGTH(tl.path_prefix) DESC LIMIT 1"
      ∷ text ") t ON TRUE"
      ∷ []
      ∷ [])

  abbrev pub tier_nulls : Text → Text
  tier_nulls alias = lines (
      text "       NULL::VARCHAR AS tier, NULL::VARCHAR AS migrated_on, NULL::VARCHAR AS note"
      ∷ cat (
          text "FROM heat_block h JOIN bytes_block "
          ∷ alias
          ∷ text " USING (server, share, subtree)"
          ∷ [])
      ∷ []
      ∷ [])

  -- `alias` names the block that holds the server, the share and the subtree.
  unfoldable pub push_tier_select_and_join : Option Text → Text → Statement → Statement
  push_tier_select_and_join (some path) alias st = push (tier_join alias) (str path ∷ []) st
  push_tier_select_and_join none alias st = push (tier_nulls alias) [] st

  abbrev pub leaderboard_files : Text
  leaderboard_files = lines (
      text "WITH scoped_files AS ("
      ∷ text "  SELECT file_id, server, share,"
      ∷ subtree_column
      ∷ text "         alloc_bytes"
      ∷ text "  FROM files"
      ∷ text "  WHERE 1=1"
      ∷ [])

  abbrev pub leaderboard_blocks : Text
  leaderboard_blocks = lines (
      []
      ∷ text "),"
      ∷ text "bytes_block AS ("
      ∷ text "  SELECT server, share, subtree,"
      ∷ text "         SUM(alloc_bytes)::BIGINT AS bytes,"
      ∷ text "         COUNT(*) FILTER (WHERE alloc_bytes IS NULL) AS unknown_bytes_files,"
      ∷ text "         COUNT(*) AS files"
      ∷ text "  FROM scoped_files"
      ∷ text "  GROUP BY server, share, subtree"
      ∷ text "),"
      ∷ text "heat_block AS ("
      ∷ text "  SELECT sf.server, sf.share, sf.subtree,"
      ∷ text "         SUM(? * dc.reads + ? * dc.writes)::DOUBLE AS demand,"
      ∷ text "         COUNT(DISTINCT dc.day_index) AS span"
      ∷ text "  FROM day_counts dc JOIN scoped_files sf ON sf.file_id = dc.file_id"
      ∷ text "  WHERE dc.day_index > ?"
      ∷ text "  GROUP BY sf.server, sf.share, sf.subtree"
      ∷ text ")"
      ∷ []
      ∷ [])

  abbrev pub leaderboard_select : Text
  leaderboard_select = lines (
      text "SELECT b.server, b.share, b.subtree, b.bytes, b.unknown_bytes_files, b.files,"
      ∷ text "       h.demand, h.span, h.demand / NULLIF(b.bytes, 0) AS density,"
      ∷ []
      ∷ [])

  abbrev pub leaderboard_order : Text
  leaderboard_order =
      lines
        (text "WHERE h.span >= ?" ∷ text "ORDER BY density DESC NULLS LAST" ∷ text "LIMIT ?" ∷ [])

  -- The optional server and share of a query over the files.
  abbrev pub push_scope : Knobs std → Statement → Statement
  push_scope k st =
      push_filter (text " AND share = ?") k.share (push_filter (text " AND server = ?") k.server st)

  unfoldable pub build_leaderboard_sql : Knobs std → ℤ → Option Text → Statement
  build_leaderboard_sql k threshold tier_log =
      let files = push leaderboard_files (int k.depth ∷ []) ([], []) in
      let scoped = push_scope k files in
      let blocks =
        push leaderboard_blocks (float k.w_read ∷ float k.w_write ∷ int threshold ∷ []) scoped in
      let tiers =
        push_tier_select_and_join tier_log (text "b") (push leaderboard_select [] blocks) in
      push leaderboard_order (int k.min_span ∷ int k.limit ∷ []) tiers

  abbrev pub children_files : Text
  children_files = lines (
      text "WITH scoped_files AS ("
      ∷ text "  SELECT file_id,"
      ∷ subtree_column
      ∷ text "         alloc_bytes"
      ∷ text "  FROM files"
      ∷ text "  WHERE (path = ? OR path LIKE ? ESCAPE '!')"
      ∷ [])

  abbrev pub children_blocks : Text
  children_blocks = lines (
      []
      ∷ text "),"
      ∷ text "bytes_block AS ("
      ∷ text "  SELECT subtree,"
      ∷ text "         SUM(alloc_bytes)::BIGINT AS bytes,"
      ∷ text "         COUNT(*) FILTER (WHERE alloc_bytes IS NULL) AS unknown_bytes_files,"
      ∷ text "         COUNT(*) AS files"
      ∷ text "  FROM scoped_files"
      ∷ text "  GROUP BY subtree"
      ∷ text "),"
      ∷ text "heat_block AS ("
      ∷ text "  SELECT sf.subtree,"
      ∷ text "         SUM(? * dc.reads + ? * dc.writes)::DOUBLE AS demand,"
      ∷ text "         COUNT(DISTINCT dc.day_index) AS span"
      ∷ text "  FROM day_counts dc JOIN scoped_files sf ON sf.file_id = dc.file_id"
      ∷ text "  WHERE dc.day_index > ?"
      ∷ text "  GROUP BY sf.subtree"
      ∷ text ")"
      ∷ text "SELECT b.subtree, b.bytes, COALESCE(h.demand, 0.0) AS demand,"
      ∷ text "        COALESCE(h.demand, 0.0) / NULLIF(b.bytes, 0) AS density,"
      ∷ text "        COALESCE(h.span, 0) AS span, b.unknown_bytes_files"
      ∷ text "  FROM bytes_block b LEFT JOIN heat_block h USING (subtree)"
      ∷ text "  ORDER BY demand DESC"
      ∷ [])

  unfoldable pub children_statement : Knobs std → Text → Text → ℤ → ℤ → Statement
  children_statement k parent parent_like child_depth threshold =
      let files =
        push children_files (int child_depth ∷ str parent ∷ str parent_like ∷ []) ([], []) in
      let scoped = push_scope k files in
      push children_blocks (float k.w_read ∷ float k.w_write ∷ int threshold ∷ []) scoped

-- `format!("{}\\%", escape_like(parent))`.
abbrev pub parent_like_of : Text → Text
parent_like_of parent = escape_like parent ++ (backslash ∷ b'%' ∷ [])
