-- ===== src/Agent/Correlation/Summary.antt =====
-- agent/src/correlation.rs: the heat table as rows, and as lines of the console.
use Prim.Native.Nat.{compare, Ordering}
use windows_fileserver_heatm.Prelude.{
  ℕ, ◌+◌, ◌-◌, ◌%◌, ◌^◌, Option, none, some, List, [], ◌∷◌, ◌++◌, Bool, true, false, ◌||◌, length,
  map, count, sum_of,
}
use windows_fileserver_heatm.Prelude.Tests.{ltb}
use windows_fileserver_heatm.Prelude.Int.{ℤ}
use windows_fileserver_heatm.Prelude.Order.{
  nat_ord, int_ord, list_ord, pair_ord, cmp_list, then_with,
}
use windows_fileserver_heatm.Prelude.Sort.{sort_by}
use windows_fileserver_heatm.Prelude.Map.{Map, lookup}
use windows_fileserver_heatm.Prelude.Text.{Text, text, decimal, pad_left, cat, newline, backslash}
use windows_fileserver_heatm.Agent.Events.{GuidKey, fmt_guid_key}
use windows_fileserver_heatm.Agent.Correlation.{HeatKey, DayCount, CorrelationEngine, resolve_name}

pub record HeatRow : Type 0 where
  pub share_guid : Option GuidKey
  pub share : Text
  pub path : Text
  pub reads : ℕ
  pub writes : ℕ
  pub active_days : ℕ

abbrev pub fmt_share_guid : Option GuidKey → Text
fmt_share_guid none = text "<none>"
fmt_share_guid (some g) = fmt_guid_key g

-- `{:>w}` of a number.
abbrev pub wide : ℕ → ℕ → Text
wide w n = pad_left b' ' w (decimal n)

abbrev pub tag : Text → Text
tag f = cat (text "[" ∷ f ∷ text "] " ∷ [])

unfoldable pub fmt_join_row : HeatRow → Option ℕ → List Text → Text
fmt_join_row r alloc flags =
    let bytes : Text = elim alloc [ some b ↦ wide 9 b | none ↦ pad_left b' ' 9 (text "?") ] in
    cat (
      text "reads="
      ∷ wide 4 r.reads
      ∷ text " writes="
      ∷ wide 4 r.writes
      ∷ text " active_days="
      ∷ wide 3 r.active_days
      ∷ text " alloc_bytes="
      ∷ bytes
      ∷ text "  "
      ∷ r.share
      ∷ (backslash ∷ [])
      ∷ r.path
      ∷ text "  "
      ∷ cat (map tag flags)
      ∷ text "[share_guid="
      ∷ fmt_share_guid r.share_guid
      ∷ text "]"
      ∷ (newline ∷ [])
      ∷ [])

-- `Display` of a row of the table without an inventory.
unfoldable pub fmt_heat_row : HeatRow → Text
fmt_heat_row r = cat (
    text "reads="
    ∷ wide 7 r.reads
    ∷ text " writes="
    ∷ wide 7 r.writes
    ∷ text " active_days="
    ∷ wide 4 r.active_days
    ∷ text "  "
    ∷ r.share
    ∷ (backslash ∷ [])
    ∷ r.path
    ∷ text "  [share_guid="
    ∷ fmt_share_guid r.share_guid
    ∷ text "]"
    ∷ [])

-- A day with a read or a write.
abbrev pub is_active : ℤ × DayCount → Bool
is_active (day, dc) = ltb 0 dc.reads || ltb 0 dc.writes

-- One row of the summary.
unfoldable pub heat_row : CorrelationEngine → HeatKey × Map ℤ DayCount → HeatRow
heat_row e ((share_guid, path), days) = record {
  share_guid = share_guid;
  share = resolve_name e share_guid;
  path = path;
  reads = sum_of (λ (d : ℤ × DayCount). d.1.reads) days % 2 ^ 64;
  writes = sum_of (λ (d : ℤ × DayCount). d.1.writes) days % 2 ^ 64;
  active_days = count is_active days;
}

-- Hottest first, then by share and path.
unfoldable pub cmp_heat_row : HeatRow → HeatRow → Ordering
cmp_heat_row a b =
    then_with (compare ((b.reads + b.writes) % 2 ^ 64) ((a.reads + a.writes) % 2 ^ 64))
      (then_with (cmp_list a.share b.share) (cmp_list a.path b.path))

unfoldable pub resolved_summary : CorrelationEngine → List HeatRow
resolved_summary e = sort_by cmp_heat_row (map (heat_row e) e.heat)

abbrev pub plain_rows : List HeatRow → Text
plain_rows [] = []
plain_rows (r ∷ rows) = fmt_heat_row r ++ (newline ∷ plain_rows rows)

unfoldable pub metadata_line : CorrelationEngine → Text
metadata_line e = cat (text "metadata-skipped: " ∷ decimal e.metadata_skipped ∷ (newline ∷ []) ∷ [])

-- A key whose share some 600 has bound.
unfoldable pub is_named : CorrelationEngine → HeatKey × Map ℤ DayCount → Bool
is_named e ((none, path), days) = false
is_named e ((some g, path), days) = elim (lookup g e.shares) [ some _ ↦ true | none ↦ false ]

unfoldable pub stats_line : CorrelationEngine → Text
stats_line e =
    let named = count (is_named e) e.heat in
    cat (
      text "r/w opens: "
      ∷ decimal e.opens_total
      ∷ text " | metadata-skipped: "
      ∷ decimal e.metadata_skipped
      ∷ text " | keys: "
      ∷ decimal (length e.heat)
      ∷ text " ("
      ∷ decimal named
      ∷ text " named, "
      ∷ decimal (length e.heat - named)
      ∷ text " UNKNOWN) | shares bound: "
      ∷ decimal (length e.shares)
      ∷ [])
