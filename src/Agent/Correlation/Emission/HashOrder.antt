-- ===== src/Agent/Correlation/Emission/HashOrder.antt =====
-- The rows of a dump, by the order in which the HashMap of the heat table yields its entries.
use mathlib.Core.Path.{◌≡◌, refl}
use mathlib.Core.Logic.{◌≢◌}
use mathlib.Core.List.{List, map, Perm, Pairwise, Nodup}
use mathlib.Core.List.Perm
use Prim.Native.Nat.Ordering.{lt, eq}
use native.Mathlib.Omega.{arith}
use windows_fileserver_heatm.Prelude.{flat_map}
use windows_fileserver_heatm.Prelude.Int.{ℤ}
use windows_fileserver_heatm.Prelude.Map.{Map}
use windows_fileserver_heatm.Prelude.Order.{nat_ord, int_ord, list_ord, pair_ord}
use windows_fileserver_heatm.Prelude.Strict.{strict_unique, Sorted-strict, Perm-flat_map}
use windows_fileserver_heatm.Agent.Platform.{Platform}
use windows_fileserver_heatm.Agent.Correlation.{HeatKey, DayCount, CorrelationEngine, resolve_name}
use windows_fileserver_heatm.Agent.Correlation.Emission.{
  EmitRow, cmp_emit_row, outcome, key_rows, emit_rows,
}
use windows_fileserver_heatm.Agent.Correlation.Emission.Order.{emit_ord, emit_key, emit_rows-Sorted}

abbrev pub HeatTable : Type 0
HeatTable = List (HeatKey × Map ℤ DayCount)

-- The engine, with the entries of its table in another order.
abbrev pub with_heat : HeatTable → CorrelationEngine → CorrelationEngine
with_heat heat e = record e { heat = heat }

EmitRow-set : IsSet EmitRow
EmitRow-set = hlevel

cmp_emit_row_asym : (a b : EmitRow) → cmp_emit_row a b ≡ lt → cmp_emit_row b a ≢ lt
unfolding cmp_emit_row
cmp_emit_row_asym a b h k = ground (arith, emit_ord.gt_of_lt (emit_key a) (emit_key b))

cmp_emit_row_tie : (a b : EmitRow) → cmp_emit_row a b ≡ eq → emit_key a ≡ emit_key b
unfolding cmp_emit_row
cmp_emit_row_tie a b h = emit_ord.eq_of_cmp (emit_key a) (emit_key b) h

module _ (platform : Platform) where
  -- Every row, in the order of the entries, before the sort.
  abbrev pub unsorted : CorrelationEngine → List EmitRow
  unsorted e = flat_map (key_rows platform e) e.heat

  -- No two rows of a dump are about the same share, path and day.
  abbrev pub HasNoTies : CorrelationEngine → Type 0
  HasNoTies e = Nodup (map emit_key (unsorted e))

  key_rows-with_heat :
      (e : CorrelationEngine) (heat : HeatTable)
      → key_rows platform (with_heat heat e) ≡ key_rows platform e
  unfolding key_rows outcome resolve_name
  key_rows-with_heat e heat = refl

  unsorted-perm :
      (e : CorrelationEngine) (heat : HeatTable)
      → Perm heat e.heat
      → Perm (unsorted (with_heat heat e)) (unsorted e)
  unsorted-perm e heat p = rw (key_rows-with_heat e heat) (Perm-flat_map (key_rows platform e) p)

  emit_rows-strict :
      (e : CorrelationEngine)
      → Nodup (map emit_key (unsorted e))
      → Pairwise (λ (a b : EmitRow). cmp_emit_row a b ≡ lt) (emit_rows platform e)
  emit_rows-strict e n =
      let sorted = emit_rows-Sorted platform e in
      Sorted-strict cmp_emit_row emit_key cmp_emit_row_tie (emit_rows platform e) sorted.0
        (Perm.nodup (Perm.map emit_key (Perm.symm sorted.1)) n)

  -- The order in which the HashMap of the table yields its entries does not show in a dump, whatever
  -- it is, where no two rows of the dump are about the same share, path and day.
  pub emit_rows-with_heat :
      (e : CorrelationEngine) (heat : HeatTable)
      → Perm heat e.heat
      → HasNoTies e
      → emit_rows platform (with_heat heat e) ≡ emit_rows platform e
  emit_rows-with_heat e heat p n =
      let rows = unsorted-perm e heat p in
      strict_unique EmitRow-set cmp_emit_row cmp_emit_row_asym
        (emit_rows-strict (with_heat heat e) (Perm.nodup (Perm.map emit_key (Perm.symm rows)) n))
        (emit_rows-strict e n)
        (Perm.trans (emit_rows-Sorted platform (with_heat heat e)).1
          (Perm.trans rows (Perm.symm (emit_rows-Sorted platform e).1)))
