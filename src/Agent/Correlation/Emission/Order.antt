-- ===== src/Agent/Correlation/Emission/Order.antt =====
-- The rows that are emitted: all of them, and in order, by the comparison that sorts them and by an
-- order that does not use it.
use mathlib.Core.List.{Perm}
use windows_fileserver_heatm.Prelude.{flat_map}
use windows_fileserver_heatm.Prelude.Int.{ℤ}
use windows_fileserver_heatm.Prelude.Order.{Ord, nat_ord, int_ord, list_ord, pair_ord}
use windows_fileserver_heatm.Prelude.Sort.{
  Sorted, IsPreorder, by_key-IsPreorder, sort_by-Sorted, sort_by-perm,
}
use windows_fileserver_heatm.Prelude.Text.{Text}
use windows_fileserver_heatm.Agent.Platform.{Platform}
use windows_fileserver_heatm.Agent.Correlation.{CorrelationEngine}
use windows_fileserver_heatm.Agent.Correlation.Emission.{EmitRow, cmp_emit_row, key_rows, emit_rows}

abbrev pub EmitKey : Type 0
EmitKey = Text × (Text × ℤ)

abbrev pub emit_ord : Ord EmitKey
emit_ord = pair_ord

abbrev pub emit_key : EmitRow → EmitKey
emit_key r = (r.share, (r.path, r.day))

pub cmp_emit_row-IsPreorder : IsPreorder cmp_emit_row
unfolding cmp_emit_row
cmp_emit_row-IsPreorder = by_key-IsPreorder emit_ord emit_key

-- The rows of a dump are every row of every kept key, in the order of share, path and day.
pub emit_rows-Sorted :
    (platform : Platform) (e : CorrelationEngine)
    → Sorted cmp_emit_row (emit_rows platform e)
      × Perm (emit_rows platform e) (flat_map (key_rows platform e) e.heat)
unfolding emit_rows
emit_rows-Sorted platform e = (
  sort_by-Sorted cmp_emit_row cmp_emit_row-IsPreorder (flat_map (key_rows platform e) e.heat),
  sort_by-perm cmp_emit_row (flat_map (key_rows platform e) e.heat),
)
