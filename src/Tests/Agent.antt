-- ===== src/Tests/Agent.antt =====
-- The heat table at a small trace: one share is bound, a file is read, written and probed.
use windows_fileserver_heatm.Prelude.{
  true, none, false, ◌+◌, ◌*◌, ◌^◌, ◌<◌, ◌≡◌, refl, some, List, [], ◌∷◌, map, length, sum_of, count,
  arith, leb, ◌&&◌, if◌then◌else◌,
}
use windows_fileserver_heatm.Prelude.Int.{ℤ, pos, quot, ◌-ℤ◌}
use windows_fileserver_heatm.Prelude.Lists.{All}
use mathlib.Core.List.{Perm}
use windows_fileserver_heatm.Prelude.Lists.{flat_map}
use windows_fileserver_heatm.Prelude.Map.{modify}
use windows_fileserver_heatm.Prelude.Text.{text}
use windows_fileserver_heatm.Agent.Correlation.Emission.{resolved_table}
use windows_fileserver_heatm.Agent.Flusher.{
  FlushCtx, Moment, received, timeout, stop, flush_now, run_flusher,
}
use windows_fileserver_heatm.Agent.Flusher.Numbering.{run_flusher-numbers}
use windows_fileserver_heatm.Agent.RunId.{mint_run_id}
use windows_fileserver_heatm.Agent.RunId.Accepted.{is_valid_uuid-mint_run_id}
use windows_fileserver_heatm.Collector.Ingest.{is_valid_uuid}
use windows_fileserver_heatm.Agent.Platform.{Platform}
use windows_fileserver_heatm.Agent.Events.{SmbEvent, tree_connect, open_file}
use windows_fileserver_heatm.Agent.Correlation.{
  CorrelationEngine, empty_engine, apply, record_open, classify_access, central_civil_day,
  run_trace, day_count, resolve_name, distinct_keys,
}
use windows_fileserver_heatm.Agent.Correlation.Counts.{day_count-run_trace}
use windows_fileserver_heatm.Agent.Correlation.Naming.{resolve_name-run_trace}
use windows_fileserver_heatm.Agent.Correlation.Activity.{IsWellFormed, run_trace-IsWellFormed}
use windows_fileserver_heatm.Agent.Correlation.Emission.{
  emit_rows, key_rows, tally, kept, empty_tally,
}
use windows_fileserver_heatm.Agent.Correlation.Summary.{heat_row, resolved_summary}
use windows_fileserver_heatm.Agent.Correlation.Emission.Ascending.{AreInOrder, emit_rows-AreInOrder}
use windows_fileserver_heatm.Agent.Correlation.Emission.Reconcile.{
  resolved_table_reconciles, dropped_sum, joins,
}
use windows_fileserver_heatm.Agent.Correlation.Emission.Rows.{
  IsUnresolved, length-emit_rows, emit_rows_unwalked, joined_days,
}

-- Lower case on ASCII, and the day in the zone six hours west of Greenwich.
abbrev pub ascii_platform : Platform
ascii_platform = record {
  to_lowercase = map (λ c. if leb 65 c && leb c 90 then c + 32 else c);
  chicago_day = λ secs. quot (secs -ℤ pos 21_600) 86_400;
}

-- Noon on the third day after 1970-01-01, as a FILETIME.
abbrev noon : ℤ
noon = pos (116_444_736_000_000_000 + 3 * 864_000_000_000 + 432_000_000_000)

abbrev trace : List (SmbEvent × ℤ)
trace =
    (open_file 7 8 (some 1) (text "A.txt") 1, noon)
    ∷ (tree_connect 1 (text "docs"), noon)
    ∷ (open_file 7 8 (some 1) (text "a.TXT") 2, noon)
    ∷ (open_file 7 8 (some 1) (text "a.txt") 128, noon)
    ∷ []

day_count-run_trace_example :
    day_count ascii_platform
      (run_trace ascii_platform trace empty_engine)
      (some 1)
      (text "a.txt")
      (pos 3)
    ≡ record { reads = 1; writes = 1 }
unfolding classify_access central_civil_day ◌-ℤ◌
day_count-run_trace_example =
    day_count-run_trace ascii_platform (some 1) (text "a.txt") (pos 3) trace

resolve_name-run_trace_example :
    resolve_name (run_trace ascii_platform trace empty_engine) (some 1) ≡ text "docs"
resolve_name-run_trace_example = resolve_name-run_trace ascii_platform 1 trace

run_trace-IsWellFormed_example : IsWellFormed 4 (run_trace ascii_platform trace empty_engine)
run_trace-IsWellFormed_example = run_trace-IsWellFormed ascii_platform trace (omega arith)

-- The engine after the trace.
abbrev seen : CorrelationEngine
seen = run_trace ascii_platform trace empty_engine

few_keys : distinct_keys seen + 1 < 2 ^ 64
unfolding distinct_keys run_trace apply record_open classify_access modify
few_keys = omega arith

nothing_walked : seen.walked_shares ≡ []
unfolding run_trace apply record_open classify_access
nothing_walked = refl

emit_rows-AreInOrder_example :
    AreInOrder (emit_rows ascii_platform seen)
    × Perm (emit_rows ascii_platform seen) (flat_map (key_rows ascii_platform seen) seen.heat)
emit_rows-AreInOrder_example = emit_rows-AreInOrder ascii_platform seen

resolved_table_reconciles_example :
    (kept (tally ascii_platform seen (resolved_summary seen) empty_tally)
      ≡ count (λ k. joins ascii_platform seen (heat_row seen k)) seen.heat)
    × (kept (tally ascii_platform seen (resolved_summary seen) empty_tally)
          + dropped_sum (tally ascii_platform seen (resolved_summary seen) empty_tally)
        ≡ distinct_keys seen)
resolved_table_reconciles_example = resolved_table_reconciles ascii_platform seen few_keys

length-emit_rows_example :
    length (emit_rows ascii_platform seen)
    ≡ sum_of (joined_days ascii_platform seen) (resolved_summary seen)
length-emit_rows_example =
    length-emit_rows ascii_platform seen 4
      (run_trace-IsWellFormed ascii_platform trace (omega arith))

emit_rows_unwalked_example : All (IsUnresolved ascii_platform seen) (emit_rows ascii_platform seen)
emit_rows_unwalked_example = emit_rows_unwalked ascii_platform seen nothing_walked

abbrev ctx : FlushCtx
ctx = record {
  server = text "fs1";
  run_id = text "550e8400-e29b-41d4-a716-446655440000";
  walked_shares = [];
  emit_dir = false;
  collector = false;
  dump_seq = 1;
}

-- The interval ends, the service stops, and a message comes too late.
abbrev wakes : List Moment
wakes =
    record { wake = timeout; engine = empty_engine; rfc3339_now = [] }
    ∷ record { wake = received stop; engine = empty_engine; rfc3339_now = [] }
    ∷ record { wake = received flush_now; engine = empty_engine; rfc3339_now = [] }
    ∷ []

run_flusher-numbers_example :
    (map (λ f. f.seq) (run_flusher ascii_platform (λ l. none) ctx wakes) ≡ 1 ∷ 2 ∷ [])
    × (map (λ f. f.console) (run_flusher ascii_platform (λ l. none) ctx wakes)
        ≡ resolved_table ascii_platform empty_engine
          ∷ resolved_table ascii_platform empty_engine
          ∷ [])
run_flusher-numbers_example = run_flusher-numbers ascii_platform (λ l. none) ctx wakes (omega arith)

is_valid_uuid-mint_run_id_example :
    is_valid_uuid (
      mint_run_id
        (record { data1 = 1; data2 = 2; data3 = 3; data4 = 4 ∷ 5 ∷ 6 ∷ 7 ∷ 8 ∷ 9 ∷ 10 ∷ 11 ∷ [] }))
    ≡ true
is_valid_uuid-mint_run_id_example =
    is_valid_uuid-mint_run_id
      (record { data1 = 1; data2 = 2; data3 = 3; data4 = 4 ∷ 5 ∷ 6 ∷ 7 ∷ 8 ∷ 9 ∷ 10 ∷ 11 ∷ [] })
      refl
