-- ===== src/Collector/Query/Responses.antt =====
-- collector/src/query.rs: what the read API makes of the rows that the database returns. The text of
-- the JSON is serde's.
use windows_fileserver_heatm.Prelude.{
  ◌+◌, Option, none, some, List, [], ◌∷◌, Bool, true, false, if◌then◌else◌, map, length,
}
use windows_fileserver_heatm.Prelude.Int.{ℤ, pos, ◌+ℤ◌, ◌-ℤ◌, is_zero_ℤ, wrap_i64}
use windows_fileserver_heatm.Prelude.Result.{Result, ok, ok_or, ◌>>=◌}
use windows_fileserver_heatm.Prelude.Text.{Text, text, split, backslash}
use windows_fileserver_heatm.Collector.Clock.{rfc3339_utc}
use windows_fileserver_heatm.Collector.Query.{Std, Knobs}
use windows_fileserver_heatm.Collector.Query.Statements.{
  Statement, scope_anchor_statement, children_anchor_statement, build_leaderboard_sql,
  children_statement, parent_like_of,
}

module _ (std : Std) where
  pub record LeaderboardRow : Type 0 where
    pub server : Text
    pub share : Text
    pub subtree : Text
    pub bytes : Option ℤ
    pub unknown_bytes_files : ℤ
    pub files : ℤ
    pub demand : std.F64
    pub span : ℤ
    pub density : Option std.F64
    pub tier : Option Text
    pub migrated_on : Option Text
    pub note : Option Text

  -- The knobs that a response echoes.
  pub record LeaderboardKnobs : Type 0 where
    pub w_read : std.F64
    pub w_write : std.F64
    pub window : ℤ
    pub min_span : ℤ
    pub depth : ℤ
    pub limit : ℤ
    pub server : Option Text
    pub share : Option Text

  pub record ChildrenKnobs : Type 0 where
    pub w_read : std.F64
    pub w_write : std.F64
    pub window : ℤ
    pub depth : ℤ
    pub server : Option Text
    pub share : Option Text

  pub record LeaderboardResponse : Type 0 where
    pub knobs : LeaderboardKnobs
    pub anchor_day : Option ℤ
    pub rows : List LeaderboardRow

  -- A child as the statement returns it.
  pub record RawChild : Type 0 where
    pub subtree : Text
    pub bytes : Option ℤ
    pub demand : std.F64
    pub density : Option std.F64
    pub span : ℤ
    pub unknown_bytes_files : ℤ

  pub record ParentTotals : Type 0 where
    pub bytes : Option ℤ
    pub demand : std.F64

  pub record ChildRow : Type 0 where
    pub subtree : Text
    pub bytes : Option ℤ
    pub demand : std.F64
    pub density : Option std.F64
    pub span : ℤ
    pub pct_bytes : Option std.F64
    pub pct_demand : Option std.F64
    pub unknown_bytes_files : ℤ

  pub record ChildrenResponse : Type 0 where
    pub knobs : ChildrenKnobs
    pub parent : Text
    pub parent_totals : ParentTotals
    pub rows : List ChildRow

  -- A row of the health statement: the server, the number of its last dump and its epoch.
  pub record RawServer : Type 0 where
    pub server : Text
    pub last_dump_seq : ℤ
    pub last_epoch : ℤ

  pub record HealthServer : Type 0 where
    pub server : Text
    pub last_dump_at : Text
    pub last_dump_seq : ℤ
    pub seconds_stale : ℤ

  pub record HealthResponse : Type 0 where
    pub now : Text
    pub servers : List HealthServer

  -- DuckDB, for each kind of query: the rows of a statement, or the error's text.
  pub record Connection : Type 0 where
    pub query_health : Result Text (List RawServer)
    pub query_day : Statement std → Result Text (Option ℤ)
    pub query_leaderboard : Statement std → Result Text (List LeaderboardRow)
    pub query_children : Statement std → Result Text (List RawChild)

  abbrev pub leaderboard_knobs : Knobs std → LeaderboardKnobs
  leaderboard_knobs k = record {
    w_read = k.w_read;
    w_write = k.w_write;
    window = k.window;
    min_span = k.min_span;
    depth = k.depth;
    limit = k.limit;
    server = k.server;
    share = k.share;
  }

  abbrev pub children_knobs : Knobs std → ChildrenKnobs
  children_knobs k = record {
    w_read = k.w_read;
    w_write = k.w_write;
    window = k.window;
    depth = k.depth;
    server = k.server;
    share = k.share;
  }

  -- `anchor - k.window`, on `i64`.
  abbrev pub threshold_of : ℤ → Knobs std → ℤ
  threshold_of anchor k = wrap_i64 (anchor -ℤ k.window)

  -- The sums of the loop over the children: the bytes, if any child has some, and the demand.
  pub record Sums : Type 0 where
    pub sum_bytes : ℤ
    pub any_bytes : Bool
    pub sum_demand : std.F64

  abbrev pub add_child : RawChild → Sums → Sums
  add_child c s = record {
    sum_bytes = elim c.bytes [ none ↦ s.sum_bytes | some b ↦ wrap_i64 (s.sum_bytes +ℤ b) ];
    any_bytes = elim c.bytes [ none ↦ s.any_bytes | some b ↦ true ];
    sum_demand = std.add s.sum_demand c.demand;
  }

  unfoldable pub sum_children : List RawChild → Sums → Sums
  sum_children [] s = s
  sum_children (c ∷ raw) s = sum_children raw (add_child c s)

  abbrev pub no_sums : Sums
  no_sums = record { sum_bytes = pos 0; any_bytes = false; sum_demand = std.zero }

  unfoldable pub parent_totals_of : List RawChild → ParentTotals
  parent_totals_of raw =
      let s = sum_children raw no_sums in
      record { bytes = if s.any_bytes then some s.sum_bytes else none; demand = s.sum_demand }

  -- `match (c.bytes, parent_bytes)`.
  abbrev pub pct_bytes_of : Option ℤ → Option ℤ → Option std.F64
  pct_bytes_of (some b) (some pb) =
      if is_zero_ℤ pb then none else some (std.div (std.of_i64 b) (std.of_i64 pb))
  pct_bytes_of b pb = none

  unfoldable pub child_row : ParentTotals → RawChild → ChildRow
  child_row totals c = record {
    subtree = c.subtree;
    bytes = c.bytes;
    demand = c.demand;
    density = c.density;
    span = c.span;
    pct_bytes = pct_bytes_of c.bytes totals.bytes;
    pct_demand =
        if std.is_nonzero totals.demand then some (std.div c.demand totals.demand) else none;
    unknown_bytes_files = c.unknown_bytes_files;
  }

  abbrev pub children_response : Knobs std → Text → List RawChild → ChildrenResponse
  children_response k parent raw = record {
    knobs = children_knobs k;
    parent = parent;
    parent_totals = parent_totals_of raw;
    rows = map (child_row (parent_totals_of raw)) raw;
  }

  -- The depth of the children: one more than the parent's segments.
  abbrev pub child_depth_of : Text → ℤ
  child_depth_of parent = pos (length (split backslash parent) + 1)

  module _ (conn : Connection) where
    -- What follows the anchor.
    abbrev pub leaderboard_from :
        Knobs std → Option Text → Option ℤ → Result Text LeaderboardResponse
    leaderboard_from k tier_log none =
        ok (record { knobs = leaderboard_knobs k; anchor_day = none; rows = [] })
    leaderboard_from k tier_log (some anchor) = do
      rows ← conn.query_leaderboard (build_leaderboard_sql std k (threshold_of anchor k) tier_log)
      ok (record { knobs = leaderboard_knobs k; anchor_day = some anchor; rows = rows })

    unfoldable pub leaderboard : Knobs std → Option Text → Result Text LeaderboardResponse
    leaderboard k tier_log =
        conn.query_day (scope_anchor_statement std k.server k.share) >>= leaderboard_from k tier_log

    abbrev pub children_from : Knobs std → Text → ℤ → Option ℤ → Result Text (List RawChild)
    children_from k parent child_depth none = ok []
    children_from k parent child_depth (some anchor) = conn.query_children (
        children_statement std k parent (parent_like_of parent) child_depth (threshold_of anchor k))

    unfoldable pub children_query : Knobs std → Text → ℤ → Result Text (List RawChild)
    children_query k parent child_depth =
        conn.query_day
          (children_anchor_statement std parent (parent_like_of parent) k.server k.share)
        >>= children_from k parent child_depth

    unfoldable pub children : Knobs std → Result Text ChildrenResponse
    children k = do
      parent ← ok_or k.parent (text "parent is required")
      raw ← children_query k parent (child_depth_of parent)
      ok (children_response k parent raw)

    abbrev pub health_server : ℤ → RawServer → HealthServer
    health_server now_secs r = record {
      server = r.server;
      last_dump_at = rfc3339_utc r.last_epoch;
      last_dump_seq = r.last_dump_seq;
      seconds_stale = wrap_i64 (now_secs -ℤ r.last_epoch);
    }

    unfoldable pub health : ℤ → Result Text HealthResponse
    health now_secs = do
      servers ← conn.query_health
      ok (record { now = rfc3339_utc now_secs; servers = map (health_server now_secs) servers })
