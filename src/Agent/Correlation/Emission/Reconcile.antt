-- ===== src/Agent/Correlation/Emission/Reconcile.antt =====
-- The header of the table against its rows, and the table against the rows of the dump.
use windows_fileserver_heatm.Prelude.{
  ℕ, ◌+◌, ◌^◌, ◌<◌, ◌≡◌, List, [], ◌∷◌, Bool, true, false, if◌then◌else◌, length, map, count,
  count-map, length-map, arith,
}
use windows_fileserver_heatm.Prelude.Sort.{count-sort_by, length-sort_by}
use windows_fileserver_heatm.Agent.Platform.{Platform}
use windows_fileserver_heatm.Agent.Correlation.{CorrelationEngine, distinct_keys}
use windows_fileserver_heatm.Agent.Correlation.Emission.{
  KeyOutcome, leaf, restat, unresolved_share, drop_root, drop_dir, drop_non_walked_share, Tally,
  empty_tally, tally_row, tally, kept, outcome,
}
use windows_fileserver_heatm.Agent.Correlation.Summary.{
  HeatRow, heat_row, cmp_heat_row, resolved_summary,
}

-- The outcomes that put a line into the table.
abbrev pub is_kept : KeyOutcome → Bool
is_kept (leaf n) = true
is_kept restat = true
is_kept unresolved_share = true
is_kept _ = false

abbrev kept_sum : Tally → ℕ
kept_sum t = t.leaves + t.restats + t.unresolved

abbrev pub dropped_sum : Tally → ℕ
dropped_sum t = t.d_dir + t.d_root + t.d_nonwalked

-- One row moves one of the counters, which do not wrap while there is room.
tally_row_counts :
    (r : HeatRow) (o : KeyOutcome) (t : Tally)
    → kept_sum t + dropped_sum t + 1 < 2 ^ 64
    → (kept_sum (tally_row r o t) ≡ (if is_kept o then 1 else 0) + kept_sum t)
      × (dropped_sum (tally_row r o t) ≡ (if is_kept o then 0 else 1) + dropped_sum t)
tally_row_counts r (leaf n) t h = omega arith
tally_row_counts r restat t h = omega arith
tally_row_counts r unresolved_share t h = omega arith
tally_row_counts r drop_root t h = omega arith
tally_row_counts r drop_dir t h = omega arith
tally_row_counts r drop_non_walked_share t h = omega arith

module _ (platform : Platform) (e : CorrelationEngine) where
  -- A row of the summary that the join with the inventory keeps. Without walked shares the console
  -- does not join, and prints every row.
  abbrev pub joins : HeatRow → Bool
  joins r = is_kept (outcome platform e r.share r.path)

  tally_counts :
      (rows : List HeatRow) (t : Tally)
      → kept_sum t + dropped_sum t + length rows + 1 < 2 ^ 64
      → (kept_sum (tally platform e rows t) ≡ count joins rows + kept_sum t)
        × (kept_sum (tally platform e rows t) + dropped_sum (tally platform e rows t)
            ≡ length rows + kept_sum t + dropped_sum t)
  unfolding tally
  tally_counts [] t h = omega arith
  tally_counts (r ∷ rows) t h = ground (
    arith,
    tally_row_counts r (outcome platform e r.share r.path) t,
    tally_counts rows (tally_row r (outcome platform e r.share r.path) t),
  )

  -- The header of the joined table reconciles: the rows that it says it keeps are those whose
  -- outcome is a leaf, a restat or an unresolved share, and with the dropped ones they are all the
  -- keys of the table. A table has fewer than 2 ^ 64 - 1 keys.
  pub resolved_table_reconciles :
      distinct_keys e + 1 < 2 ^ 64
      → (kept (tally platform e (resolved_summary e) empty_tally)
          ≡ count (λ k. joins (heat_row e k)) e.heat)
        × (kept (tally platform e (resolved_summary e) empty_tally)
              + dropped_sum (tally platform e (resolved_summary e) empty_tally)
            ≡ distinct_keys e)
  unfolding distinct_keys resolved_summary
  resolved_table_reconciles h = omega (
    arith,
    tally_counts (resolved_summary e) empty_tally (omega (arith, summary_length)),
    summary_length,
    summary_joins,
  )
    where
      summary_length : length (resolved_summary e) ≡ length e.heat
      summary_length = omega (
        arith,
        length-sort_by cmp_heat_row (map (heat_row e) e.heat),
        length-map {0, 0} (heat_row e) e.heat,
      )

      summary_joins : count joins (resolved_summary e) ≡ count (λ k. joins (heat_row e k)) e.heat
      summary_joins = omega (
        arith,
        count-sort_by cmp_heat_row joins (map (heat_row e) e.heat),
        count-map {0, 0} joins (heat_row e) e.heat,
      )
