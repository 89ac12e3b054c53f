-- ===== src/Agent/Correlation/Activity.antt =====
-- The invariant of the heat table: keys and days ascend, no key is without a day, and no day is
-- without a read or a write.
use mathlib.Core.Path.{subst}
use windows_fileserver_heatm.Prelude.{
  ℕ, ◌+◌, ◌^◌, ◌≤◌, ◌<◌, Option, List, [], ◌∷◌, length, All, All-imp, arith,
}
use windows_fileserver_heatm.Prelude.Int.{ℤ}
use windows_fileserver_heatm.Prelude.Order.{nat_ord, int_ord, list_ord, pair_ord, option_ord}
use windows_fileserver_heatm.Prelude.Map.{
  Map, modify, Ascending, modify-Ascending, All-value-modify, NotEmpty, modify-NotEmpty,
}
use windows_fileserver_heatm.Prelude.Text.{Text}
use windows_fileserver_heatm.Agent.Platform.{Platform}
use windows_fileserver_heatm.Agent.Events.{GuidKey, SmbEvent, tree_connect, open_file}
use windows_fileserver_heatm.Agent.Correlation.{
  HeatKey, Access, read, write, metadata, DayCount, no_counts, CorrelationEngine, empty_engine,
  classify_access, central_civil_day, bump, record_open, apply_open, apply, run_trace,
}

-- Some activity, and no more than `n` accesses.
pub record IsActive (n : ℕ) (dc : DayCount) : Type 0 where
  pub some_access : 0 < dc.reads + dc.writes
  pub at_most : dc.reads + dc.writes ≤ n

pub record IsRow (n : ℕ) (days : Map ℤ DayCount) : Type 0 where
  pub ascending : Ascending days
  pub inhabited : NotEmpty days
  pub active : All {A = ℤ × DayCount} (λ d. IsActive n d.1) days

-- The table after at most `n` opens.
pub record IsWellFormed (n : ℕ) (e : CorrelationEngine) : Type 0 where
  pub ascending : Ascending e.heat
  pub rows : All {A = HeatKey × Map ℤ DayCount} (λ r. IsRow n r.1) e.heat

IsActive-mono : (n : ℕ) (dc : DayCount) → IsActive n dc → IsActive (n + 1) dc
IsActive-mono n dc h = omega arith

IsRow-mono : (n : ℕ) (days : Map ℤ DayCount) → IsRow n days → IsRow (n + 1) days
IsRow-mono n days h = record {
  ascending = h.ascending;
  inhabited = h.inhabited;
  active =
      All-imp (λ (d : ℤ × DayCount). IsActive n d.1) (λ d. IsActive (n + 1) d.1)
        (λ d. IsActive-mono n d.1) days h.active;
}

IsWellFormed-mono : (n : ℕ) (e : CorrelationEngine) → IsWellFormed n e → IsWellFormed (n + 1) e
IsWellFormed-mono n e h = record {
  ascending = h.ascending;
  rows =
      All-imp (λ (r : HeatKey × Map ℤ DayCount). IsRow n r.1) (λ r. IsRow (n + 1) r.1)
        (λ r. IsRow-mono n r.1) e.heat h.rows;
}

-- An access that is counted.
abbrev Counted : Access → Type 0
Counted read = Unit
Counted write = Unit
Counted metadata = ⊥

bump-IsActive :
    (kind : Access) (n : ℕ) (dc : DayCount)
    → Counted kind
    → n + 1 < 2 ^ 32
    → dc.reads + dc.writes ≤ n
    → IsActive (n + 1) (bump kind dc)
unfolding bump
bump-IsActive read n dc c fits h = omega arith
bump-IsActive write n dc c fits h = omega arith
bump-IsActive metadata n dc c fits h = absurd c

module _ (kind : Access) (day : ℤ) (n : ℕ) (counted : Counted kind) (fits : n + 1 < 2 ^ 32) where
  fresh-IsRow : IsRow (n + 1) (modify day no_counts (bump kind) [])
  fresh-IsRow = record {
    ascending = modify-Ascending day no_counts (bump kind) [] tt;
    inhabited = modify-NotEmpty day no_counts (bump kind) [];
    active = unfold modify in (bump-IsActive kind n no_counts counted fits (omega arith), tt);
  }

  modify-IsRow :
      (days : Map ℤ DayCount) → IsRow n days → IsRow (n + 1) (modify day no_counts (bump kind) days)
  modify-IsRow days h = record {
    ascending = modify-Ascending day no_counts (bump kind) days h.ascending;
    inhabited = modify-NotEmpty day no_counts (bump kind) days;
    active =
        All-value-modify (IsActive n) (IsActive (n + 1)) day no_counts (bump kind) days
          (bump-IsActive kind n no_counts counted fits (omega arith))
          (λ dc active. bump-IsActive kind n dc counted fits active.at_most) (IsActive-mono n)
          h.active;
  }

  record_open-IsWellFormed :
      (platform : Platform) (g : Option GuidKey) (p : Text) (e : CorrelationEngine)
      → IsWellFormed n e
      → IsWellFormed (n + 1) (record_open platform g p kind day e)
  unfolding record_open
  record_open-IsWellFormed platform g p e h = record {
    ascending =
        modify-Ascending (g, platform.to_lowercase p) [] (modify day no_counts (bump kind)) e.heat
          h.ascending;
    rows =
        All-value-modify (IsRow n) (IsRow (n + 1)) (g, platform.to_lowercase p) []
          (modify day no_counts (bump kind)) e.heat fresh-IsRow modify-IsRow (IsRow-mono n) h.rows;
  }

module _ (platform : Platform) where
  apply_open-IsWellFormed :
      (kind : Access) (n : ℕ) (opened tree : GuidKey) (g : Option GuidKey) (p : Text) (access : ℕ)
      (filetime : ℤ) (e : CorrelationEngine)
      → n + 1 < 2 ^ 32
      → IsWellFormed n e
      → IsWellFormed (n + 1) (apply_open platform kind opened tree g p access filetime e).0
  unfolding apply_open
  apply_open-IsWellFormed metadata n opened tree g p access filetime e fits h =
      let grown = IsWellFormed-mono n e h in
      record { ascending = grown.ascending; rows = grown.rows }
  apply_open-IsWellFormed read n opened tree g p access filetime e fits h =
      record_open-IsWellFormed read (central_civil_day platform filetime) n tt fits platform g p e h
  apply_open-IsWellFormed write n opened tree g p access filetime e fits h =
      record_open-IsWellFormed write (central_civil_day platform filetime) n tt fits platform g p e
        h

  -- Every event keeps the invariant, with room for one more open.
  pub apply-IsWellFormed :
      (n : ℕ) (ev : SmbEvent) (filetime : ℤ) (e : CorrelationEngine)
      → n + 1 < 2 ^ 32
      → IsWellFormed n e
      → IsWellFormed (n + 1) (apply platform ev filetime e).0
  unfolding apply
  apply-IsWellFormed n (tree_connect g s) filetime e fits h =
      let grown = IsWellFormed-mono n e h in
      record { ascending = grown.ascending; rows = grown.rows }
  apply-IsWellFormed n (open_file opened tree g p access) filetime e fits h =
      apply_open-IsWellFormed (classify_access access) n opened tree g p access filetime e fits h

  run_trace-IsWellFormed_from :
      (log : List (SmbEvent × ℤ)) (n : ℕ) (e : CorrelationEngine)
      → n + length log < 2 ^ 32
      → IsWellFormed n e
      → IsWellFormed (n + length log) (run_trace platform log e)
  unfolding run_trace
  run_trace-IsWellFormed_from [] n e fits h = subst (λ k. IsWellFormed k e) (omega arith) h
  run_trace-IsWellFormed_from ((ev, filetime) ∷ log) n e fits h =
      subst (λ k. IsWellFormed k (run_trace platform log (apply platform ev filetime e).0))
        (omega arith)
        (run_trace-IsWellFormed_from log (n + 1) (apply platform ev filetime e).0 (omega arith)
          (apply-IsWellFormed n ev filetime e (omega arith) h))

  -- After a trace of fewer than 2 ^ 32 events, the keys of the table and the days of each key ascend,
  -- so none stands twice; each key has a day; and each day has an access, and at most as many as
  -- the trace has events.
  pub run_trace-IsWellFormed :
      (log : List (SmbEvent × ℤ))
      → length log < 2 ^ 32
      → IsWellFormed (length log) (run_trace platform log empty_engine)
  run_trace-IsWellFormed log fits =
      subst (λ k. IsWellFormed k (run_trace platform log empty_engine)) (omega arith)
        (run_trace-IsWellFormed_from log 0 empty_engine (omega arith)
          (record { ascending = tt; rows = tt }))
