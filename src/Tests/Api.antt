-- ===== src/Tests/Api.antt =====
-- The read API against a database that returns two children, with a toy `f64`.
use windows_fileserver_heatm.Prelude.{
  ◌≡◌, ◌↔◌, refl, none, some, [], ◌∷◌, ◌++◌, sum_of, ◌<◌, ◌^◌, arith,
}
use windows_fileserver_heatm.Prelude.Int.{ℤ, pos}
use windows_fileserver_heatm.Prelude.Result.{ok}
use windows_fileserver_heatm.Prelude.Text.{Text, text, backslash}
use windows_fileserver_heatm.Collector.Query.{Knobs, default_knobs}
use windows_fileserver_heatm.Collector.Query.Statements.{
  build_leaderboard_sql, children_statement, parent_like_of,
}
use windows_fileserver_heatm.Collector.Query.Params.{statements_bound}
use windows_fileserver_heatm.Collector.Query.Like.{Like, parent_like_of_iff}
use windows_fileserver_heatm.Collector.Query.Responses.{
  RawChild, ChildRow, ChildrenResponse, Connection, child_row, children_query, children,
  children_response,
}
use windows_fileserver_heatm.Collector.Query.Totals.{HasTotals, byte_count, children-HasTotals}
use windows_fileserver_heatm.Tests.Server.{no_std}

abbrev knobs : Knobs no_std
knobs = record (default_knobs no_std) { parent = some (text "a_b") }

abbrev child : Text → ℤ → RawChild no_std
child subtree bytes = record {
  subtree = subtree;
  bytes = some bytes;
  demand = 0;
  density = none;
  span = pos 1;
  unknown_bytes_files = pos 0;
}

abbrev conn : Connection no_std
conn = record {
  query_health = ok [];
  query_day = λ st. ok (some (pos 20_000));
  query_leaderboard = λ st. ok [];
  query_children = λ st. ok (child (text "x") (pos 5) ∷ child (text "y") (pos 7) ∷ []);
}

abbrev two_children : ChildrenResponse no_std
two_children =
    children_response no_std knobs (text "a_b")
      (child (text "x") (pos 5) ∷ child (text "y") (pos 7) ∷ [])

statements_bound_example :
    ((build_leaderboard_sql no_std knobs (pos 9) none).0
      ≡ (build_leaderboard_sql no_std (default_knobs no_std) (pos 8) none).0)
    × ((children_statement no_std knobs (text "a") (text "b") (pos 2) (pos 9)).0
        ≡ (children_statement no_std
            (default_knobs no_std)
            (text "c")
            (text "d")
            (pos 3)
            (pos 8)).0)
statements_bound_example =
    statements_bound no_std knobs (default_knobs no_std) (pos 9) (pos 8) none none (text "a")
      (text "b") (text "c") (text "d") (pos 2) (pos 3) tt tt tt

parent_like_of_iff_example :
    Like (parent_like_of (text "a_b")) (text "a_b" ++ backslash ∷ text "c")
    ↔ ((rest : Text) × (text "a_b" ++ backslash ∷ text "c" ≡ text "a_b" ++ backslash ∷ rest))
parent_like_of_iff_example = parent_like_of_iff (text "a_b") (text "a_b" ++ backslash ∷ text "c")

two_children_ok : children no_std conn knobs ≡ ok two_children
unfolding children children_query
two_children_ok = refl

two_children_small : sum_of (λ (c : ChildRow no_std). byte_count c.bytes) two_children.rows < 2 ^ 63
unfolding child_row
two_children_small = omega arith

children-HasTotals_example : HasTotals no_std two_children
unfolding child_row
children-HasTotals_example =
    children-HasTotals no_std conn knobs two_children_ok (tt, (tt, tt)) two_children_small
