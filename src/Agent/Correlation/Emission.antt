-- ===== src/Agent/Correlation/Emission.antt =====
-- agent/src/correlation.rs: what is emitted of the heat table, joined with the inventory.
pub mod Order
pub mod Ascending
pub mod Reconcile
pub mod Rows
pub mod HashOrder
pub mod Growth
use Prim.Native.Nat.{compare, Ordering}
use windows_fileserver_heatm.Prelude.{
  ℕ, zero, suc, ◌+◌, ◌-◌, ◌%◌, ◌^◌, Option, none, some, List, [], ◌∷◌, ◌++◌, Bool, true, false, not,
  ◌&&◌, ◌||◌, if◌then◌else◌, length, map, flat_map, count, sum_of, any,
}
use windows_fileserver_heatm.Prelude.Tests.{ltb}
use windows_fileserver_heatm.Prelude.Int.{ℤ}
use windows_fileserver_heatm.Prelude.Order.{
  nat_ord, int_ord, list_ord, pair_ord, cmp_list, cmp_ℤ, then_with, ◌==◌,
}
use windows_fileserver_heatm.Prelude.Sort.{sort_by}
use windows_fileserver_heatm.Prelude.Map.{Map, lookup}
use windows_fileserver_heatm.Prelude.Text.{
  Text, text, is_empty, decimal, decimal_ℤ, pad_left, cat, newline, backslash,
}
use windows_fileserver_heatm.Agent.Platform.{Platform}
use windows_fileserver_heatm.Agent.Events.{GuidKey, fmt_guid_key}
use windows_fileserver_heatm.Agent.Inventory.{Inventory, Entry}
use windows_fileserver_heatm.Agent.Correlation.{
  HeatKey, DayCount, CorrelationEngine, resolve_name, unknown_share,
}
use windows_fileserver_heatm.Agent.Correlation.Summary.{
  HeatRow, fmt_share_guid, wide, tag, fmt_join_row, fmt_heat_row, is_active, heat_row, cmp_heat_row,
  resolved_summary, plain_rows, metadata_line, is_named, stats_line,
}

pub data KeyOutcome : Type 0 where
  leaf : ℕ → KeyOutcome
  restat unresolved_share drop_root drop_dir drop_non_walked_share : KeyOutcome

pub record EmitRow : Type 0 where
  pub share : Text
  pub path : Text
  pub day : ℤ
  pub reads : ℕ
  pub writes : ℕ
  pub alloc_bytes : Option ℕ
  pub flags : List Text

unfoldable pub cmp_emit_row : EmitRow → EmitRow → Ordering
cmp_emit_row a b =
    then_with (cmp_list a.share b.share) (then_with (cmp_list a.path b.path) (cmp_ℤ a.day b.day))

-- The counters and the body that `resolved_table` gathers.
pub record Tally : Type 0 where
  pub body : Text
  pub leaves : ℕ
  pub restats : ℕ
  pub unresolved : ℕ
  pub d_dir : ℕ
  pub d_root : ℕ
  pub d_nonwalked : ℕ

abbrev pub empty_tally : Tally
empty_tally = record {
  body = [];
  leaves = 0;
  restats = 0;
  unresolved = 0;
  d_dir = 0;
  d_root = 0;
  d_nonwalked = 0;
}

-- `+= 1` on a `u64`.
abbrev pub inc : ℕ → ℕ
inc n = (n + 1) % 2 ^ 64

abbrev pub tally_row : HeatRow → KeyOutcome → Tally → Tally
tally_row r (leaf alloc) t = record t {
  leaves = inc t.leaves;
  body = t.body ++ fmt_join_row r (some alloc) [];
}
tally_row r restat t = record t {
  restats = inc t.restats;
  body = t.body ++ fmt_join_row r none (text "restat" ∷ []);
}
tally_row r unresolved_share t = record t {
  unresolved = inc t.unresolved;
  body = t.body ++ fmt_join_row r none (text "unresolved-share" ∷ []);
}
tally_row r drop_dir t = record t { d_dir = inc t.d_dir }
tally_row r drop_root t = record t { d_root = inc t.d_root }
tally_row r drop_non_walked_share t = record t { d_nonwalked = inc t.d_nonwalked }

-- `kept` in the header of the table.
abbrev pub kept : Tally → ℕ
kept t = (t.leaves + t.restats + t.unresolved) % 2 ^ 64

-- A row of the dump for one day of a key.
abbrev pub day_row : Text → Option ℕ → List Text → Text → ℤ × DayCount → EmitRow
day_row share alloc flags path (day, dc) = record {
  share = share;
  path = path;
  day = day;
  reads = dc.reads;
  writes = dc.writes;
  alloc_bytes = alloc;
  flags = flags;
}

abbrev pub day_rows : Option (Text × Option ℕ × List Text) → Text → Map ℤ DayCount → List EmitRow
day_rows none path days = []
day_rows (some (share, alloc, flags)) path days = map (day_row share alloc flags path) days

module _ (platform : Platform) where
  unfoldable pub classify_key : Text → Text → Inventory → List Text → KeyOutcome
  classify_key share norm_path inventory walked_shares =
      let share_lc = platform.to_lowercase share in
      if is_empty norm_path
      then drop_root
      else if share == unknown_share
      then unresolved_share
      else if not (any (λ w. w == share_lc) walked_shares)
      then drop_non_walked_share
      else elim (lookup (share_lc, norm_path) inventory) [
        | some entry ↦ if entry.is_dir then drop_dir else leaf entry.alloc
        | none ↦ restat
      ]

  unfoldable pub outcome : CorrelationEngine → Text → Text → KeyOutcome
  outcome e share path = classify_key share path e.inventory e.walked_shares

  -- The loop of `resolved_table` over the rows.
  unfoldable pub tally : CorrelationEngine → List HeatRow → Tally → Tally
  tally e [] t = t
  tally e (r ∷ rows) t = tally e rows (tally_row r (outcome e r.share r.path) t)

  unfoldable pub resolved_table : CorrelationEngine → Text
  resolved_table e =
      let rows = resolved_summary e in
      let t = tally e rows empty_tally in
      let plain : Text = cat (
        text "=== resolved heat: "
        ∷ decimal (length rows)
        ∷ text " keys, "
        ∷ decimal e.opens_total
        ∷ text " r/w opens ==="
        ∷ (newline ∷ [])
        ∷ plain_rows rows
        ∷ metadata_line e
        ∷ []) in
      let joined : Text = cat (
        text "=== resolved heat: "
        ∷ decimal (kept t)
        ∷ text " rows ("
        ∷ decimal t.leaves
        ∷ text " leaves, "
        ∷ decimal t.restats
        ∷ text " restat, "
        ∷ decimal t.unresolved
        ∷ text " unresolved-share), "
        ∷ decimal e.opens_total
        ∷ text " r/w opens ==="
        ∷ (newline ∷ [])
        ∷ text "dropped: "
        ∷ decimal t.d_dir
        ∷ text " dir, "
        ∷ decimal t.d_root
        ∷ text " share-root, "
        ∷ decimal t.d_nonwalked
        ∷ text " non-walked-share"
        ∷ (newline ∷ [])
        ∷ t.body
        ∷ metadata_line e
        ∷ []) in
      elim e.walked_shares [ [] ↦ plain | w ∷ ws ↦ joined ]

  -- The share, the bytes and the flags of a key that is kept.
  unfoldable pub kept_as : Text → KeyOutcome → Option (Text × Option ℕ × List Text)
  kept_as share (leaf alloc) = some (platform.to_lowercase share, some alloc, [])
  kept_as share restat = some (platform.to_lowercase share, none, text "restat" ∷ [])
  kept_as share unresolved_share = some (text "unknown", none, text "unresolved_share" ∷ [])
  kept_as share _ = none

  -- One row for each day of a key, or none if the key is dropped.
  unfoldable pub key_rows : CorrelationEngine → HeatKey × Map ℤ DayCount → List EmitRow
  key_rows e ((share_guid, path), days) =
      let share = resolve_name e share_guid in
      day_rows (kept_as share (outcome e share path)) path days

  unfoldable pub emit_rows : CorrelationEngine → List EmitRow
  emit_rows e = sort_by cmp_emit_row (flat_map (key_rows e) e.heat)
