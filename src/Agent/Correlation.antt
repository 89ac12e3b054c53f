-- ===== src/Agent/Correlation.antt =====
-- agent/src/correlation.rs: the heat table and the names of its shares. Events are folded in by
-- `apply`; the emission of the table is the child `Emission`. `u32` and `u64` counters wrap, as in
-- the release profile, which has no overflow checks.
pub mod Counts
pub mod Summary
pub mod Emission
pub mod Traces
pub mod Naming
pub mod Activity
pub mod Console
use Prim.Native.Nat.{bit_and, bit_or}
use windows_fileserver_heatm.Prelude.{
  ℕ, zero, suc, ◌+◌, ◌-◌, ◌*◌, ◌/◌, ◌%◌, ◌^◌, Option, none, some, List, [], ◌∷◌, Bool, true, false,
  not, if◌then◌else◌, length,
}
use windows_fileserver_heatm.Prelude.Int.{ℤ, pos, quot, ◌-ℤ◌}
use windows_fileserver_heatm.Prelude.Order.{nat_ord, int_ord, list_ord, pair_ord, option_ord, ◌==◌}
use windows_fileserver_heatm.Prelude.Map.{Map, lookup, modify, insert}
use windows_fileserver_heatm.Prelude.Nested.{cell}
use windows_fileserver_heatm.Prelude.Text.{Text, text}
use windows_fileserver_heatm.Agent.Platform.{Platform}
use windows_fileserver_heatm.Agent.Events.{GuidKey, SmbEvent, tree_connect, open_file}
use windows_fileserver_heatm.Agent.Inventory.{Inventory}

-- The share's GUID, if the open carries one, and the case-folded path.
abbrev pub HeatKey : Type 0
HeatKey = Option GuidKey × Text

abbrev pub unknown_share : Text
unknown_share = text "UNKNOWN"

abbrev pub filetime_to_unix_secs : ℕ
filetime_to_unix_secs = 11_644_473_600

abbrev pub file_read_data : ℕ
file_read_data = 0x1

abbrev pub write_mask : ℕ
write_mask = bit_or 0x2 0x4

pub data Access : Type 0 where
  read write metadata : Access

unfoldable pub classify_access : ℕ → Access
classify_access desired =
    if not (bit_and desired write_mask == 0)
    then write
    else if not (bit_and desired file_read_data == 0)
    then read
    else metadata

pub record DayCount : Type 0 where
  pub reads : ℕ
  pub writes : ℕ

-- `DayCount::default()`.
abbrev pub no_counts : DayCount
no_counts = record { reads = 0; writes = 0 }

pub record ResolvedAccess : Type 0 where
  pub share_guid : Option GuidKey
  pub share : Text
  pub path : Text
  pub tree : GuidKey
  pub open_guid : GuidKey
  pub access : ℕ
  pub kind : Access
  pub day : ℤ

pub record CorrelationEngine : Type 0 where
  pub shares : Map GuidKey Text
  pub heat : Map HeatKey (Map ℤ DayCount)
  pub inventory : Inventory
  pub walked_shares : List Text
  pub opens_total : ℕ
  pub metadata_skipped : ℕ

-- `CorrelationEngine::default()`.
abbrev pub empty_engine : CorrelationEngine
empty_engine = record {
  shares = [];
  heat = [];
  inventory = [];
  walked_shares = [];
  opens_total = 0;
  metadata_skipped = 0;
}

-- The share name that is bound to a GUID now.
unfoldable pub resolve_name : CorrelationEngine → Option GuidKey → Text
resolve_name e none = unknown_share
resolve_name e (some g) = elim (lookup g e.shares) [ some name ↦ name | none ↦ unknown_share ]

-- The one counter that an open moves.
unfoldable pub bump : Access → DayCount → DayCount
bump read dc = record dc { reads = (dc.reads + 1) % 2 ^ 32 }
bump write dc = record dc { writes = (dc.writes + 1) % 2 ^ 32 }
bump metadata dc = dc

unfoldable pub load_inventory : Inventory → List Text → CorrelationEngine → CorrelationEngine
load_inventory inv walked e = record e { inventory = inv; walked_shares = walked }

-- The names of the walked shares, in the order of the set.
abbrev pub walked_shares_vec : CorrelationEngine → List Text
walked_shares_vec e = e.walked_shares

module _ (platform : Platform) where
  unfoldable pub central_civil_day : ℤ → ℤ
  central_civil_day filetime =
      platform.chicago_day (quot filetime 10_000_000 -ℤ pos filetime_to_unix_secs)

  -- What an accepted open does to the table.
  unfoldable pub record_open :
      Option GuidKey → Text → Access → ℤ → CorrelationEngine → CorrelationEngine
  record_open share_guid path kind day e = record e {
    opens_total = (e.opens_total + 1) % 2 ^ 64;
    heat =
        modify (share_guid, platform.to_lowercase path) [] (modify day no_counts (bump kind))
          e.heat;
  }

  -- The arm of `apply` for a 650, once its access is classified.
  unfoldable pub apply_open :
      Access
      → GuidKey
      → GuidKey
      → Option GuidKey
      → Text
      → ℕ
      → ℤ
      → CorrelationEngine
      → CorrelationEngine × Option ResolvedAccess
  apply_open metadata opened tree share_guid path access filetime e =
      (record e { metadata_skipped = (e.metadata_skipped + 1) % 2 ^ 64 }, none)
  apply_open kind opened tree share_guid path access filetime e =
      let day = central_civil_day filetime in
      let counted = record_open share_guid path kind day e in
      (
        counted,
        some (record {
          share_guid = share_guid;
          share = resolve_name counted share_guid;
          path = path;
          tree = tree;
          open_guid = opened;
          access = access;
          kind = kind;
          day = day;
        }),
      )

  unfoldable pub apply :
      SmbEvent → ℤ → CorrelationEngine → CorrelationEngine × Option ResolvedAccess
  unfolding apply_open
  apply (tree_connect share_guid share) filetime e =
      (record e { shares = insert share_guid share e.shares }, none)
  apply (open_file opened tree share_guid path access) filetime e =
      apply_open (classify_access access) opened tree share_guid path access filetime e

  -- The events of a trace, each with its time stamp, in the order in which they arrive.
  unfoldable pub run_trace : List (SmbEvent × ℤ) → CorrelationEngine → CorrelationEngine
  run_trace [] e = e
  run_trace ((ev, filetime) ∷ log) e = run_trace log (apply ev filetime e).0

  unfoldable pub day_count : CorrelationEngine → Option GuidKey → Text → ℤ → DayCount
  day_count e share_guid path day =
      cell no_counts e.heat (share_guid, platform.to_lowercase path) day

  unfoldable pub day_entries : CorrelationEngine → Option GuidKey → Text → ℕ
  day_entries e share_guid path = elim (lookup (share_guid, platform.to_lowercase path) e.heat) [
    | none ↦ 0
    | some days ↦ length days
  ]

unfoldable pub distinct_keys : CorrelationEngine → ℕ
distinct_keys e = length e.heat
