-- ===== src/Agent/Correlation/Counts.antt =====
-- The table against the trace: what every counter of the heat table says of the events seen.
use windows_fileserver_heatm.Prelude.{
  ℕ, ◌+◌, ◌%◌, ◌^◌, ◌<◌, ◌≡◌, refl, Option, List, [], ◌∷◌, Bool, true, false, ◌&&◌, if◌then◌else◌,
  count, arith,
}
use windows_fileserver_heatm.Prelude.Int.{ℤ}
use windows_fileserver_heatm.Prelude.Order.{nat_ord, int_ord, list_ord, pair_ord, option_ord, ◌==◌}
use windows_fileserver_heatm.Prelude.Map.{lookup}
use windows_fileserver_heatm.Prelude.Nested.{cell-modify}
use windows_fileserver_heatm.Prelude.Text.{Text}
use windows_fileserver_heatm.Agent.Platform.{Platform}
use windows_fileserver_heatm.Agent.Events.{GuidKey, SmbEvent, tree_connect, open_file}
use windows_fileserver_heatm.Agent.Correlation.{
  HeatKey, Access, read, write, metadata, DayCount, no_counts, CorrelationEngine, empty_engine,
  classify_access, central_civil_day, bump, record_open, apply, run_trace, day_count,
}

abbrev pub same_access : Access → Access → Bool
same_access read read = true
same_access write write = true
same_access metadata metadata = true
same_access _ _ = false

kind_exclusive :
    (kind : Access) (here : Bool)
    → (same_access kind read && here) ≡ true
    → (same_access kind write && here) ≡ false
kind_exclusive read here h = refl
kind_exclusive write here h = cc
kind_exclusive metadata here h = refl

-- One event in front of a trace whose counts are known.
run_step :
    (before after : DayCount) (r w : Bool) (n m : ℕ) (final : DayCount)
    → before.reads < 2 ^ 32
    → before.writes < 2 ^ 32
    → (r ≡ true → w ≡ false)
    → after ≡ (if r then bump read before else if w then bump write before else before)
    → (after.reads < 2 ^ 32
        → after.writes < 2 ^ 32
        → final
          ≡ record { reads = (after.reads + n) % 2 ^ 32; writes = (after.writes + m) % 2 ^ 32 })
    → final ≡ record {
      reads = (before.reads + ((if r then 1 else 0) + n)) % 2 ^ 32;
      writes = (before.writes + ((if w then 1 else 0) + m)) % 2 ^ 32;
    }
unfolding bump
run_step before after true true n m final hr hw x e ih = cc (x refl)
run_step before after true false n m final hr hw x e ih =
    rw (ih (rw e (omega arith)) (rw e (omega arith)), e) (ground arith)
run_step before after false true n m final hr hw x e ih =
    rw (ih (rw e (omega arith)) (rw e (omega arith)), e) (ground arith)
run_step before after false false n m final hr hw x e ih =
    rw (ih (rw e (omega arith)) (rw e (omega arith)), e) (ground arith)

module _ (platform : Platform) where
  -- An open of this file on this day that is classified so.
  abbrev pub hits : Access → Option GuidKey → Text → ℤ → SmbEvent × ℤ → Bool
  hits kind share_guid path day (tree_connect g s, filetime) = false
  hits kind share_guid path day (open_file opened tree g p access, filetime) =
      same_access (classify_access access) kind
      && (◌==◌ {K = HeatKey} (g, platform.to_lowercase p) (share_guid, platform.to_lowercase path)
          && (central_civil_day platform filetime == day))

  -- No open is both a read and a write.
  hits_exclusive :
      (share_guid : Option GuidKey) (path : Text) (day : ℤ) (ev : SmbEvent) (filetime : ℤ)
      → hits read share_guid path day (ev, filetime) ≡ true
      → hits write share_guid path day (ev, filetime) ≡ false
  hits_exclusive share_guid path day (tree_connect g s) filetime h = refl
  hits_exclusive share_guid path day (open_file opened tree g p access) filetime h =
      kind_exclusive (classify_access access) _ h

  module _ (share_guid : Option GuidKey) (path : Text) (day : ℤ) where
    abbrev counts : CorrelationEngine → DayCount
    counts e = day_count platform e share_guid path day

    day_count-record_open :
        (g : Option GuidKey) (p : Text) (kind : Access) (d : ℤ) (e : CorrelationEngine)
        → counts (record_open platform g p kind d e) ≡ (
            if ◌==◌ {K = HeatKey}
                (g, platform.to_lowercase p)
                (share_guid, platform.to_lowercase path)
              && (d == day)
            then bump kind (counts e)
            else counts e)
    unfolding day_count record_open
    day_count-record_open g p kind d e =
        cell-modify no_counts e.heat (g, platform.to_lowercase p)
          (share_guid, platform.to_lowercase path) d day (bump kind)

    counts-skip :
        (n : ℕ) (e : CorrelationEngine) → counts (record e { metadata_skipped = n }) ≡ counts e
    unfolding day_count
    counts-skip n e = refl

    -- The counters after one event: an accepted open of this file and day moves one of them.
    day_count-apply :
        (ev : SmbEvent) (filetime : ℤ) (e : CorrelationEngine)
        → counts (apply platform ev filetime e).0 ≡ (
            if hits read share_guid path day (ev, filetime)
            then bump read (counts e)
            else if hits write share_guid path day (ev, filetime)
            then bump write (counts e)
            else counts e)
    unfolding apply
    day_count-apply (tree_connect g s) filetime e = unfold day_count in refl
    day_count-apply (open_file opened tree g p access) filetime e = ground (
      arith,
      day_count-record_open g p (classify_access access) (central_civil_day platform filetime) e,
      counts-skip ((e.metadata_skipped + 1) % 2 ^ 64) e,
    )

    -- The counters after a trace, from any state whose counters are in range.
    day_count-run_trace_from :
        (log : List (SmbEvent × ℤ)) (e : CorrelationEngine)
        → (counts e).reads < 2 ^ 32
        → (counts e).writes < 2 ^ 32
        → counts (run_trace platform log e) ≡ record {
          reads = ((counts e).reads + count (hits read share_guid path day) log) % 2 ^ 32;
          writes = ((counts e).writes + count (hits write share_guid path day) log) % 2 ^ 32;
        }
    unfolding run_trace
    day_count-run_trace_from [] e hr hw = ground arith
    day_count-run_trace_from ((ev, filetime) ∷ log) e hr hw =
        run_step (counts e) (counts (apply platform ev filetime e).0)
          (hits read share_guid path day (ev, filetime))
          (hits write share_guid path day (ev, filetime))
          (count (hits read share_guid path day) log) (count (hits write share_guid path day) log)
          (counts (run_trace platform log (apply platform ev filetime e).0)) hr hw
          (hits_exclusive share_guid path day ev filetime) (day_count-apply ev filetime e)
          (day_count-run_trace_from log (apply platform ev filetime e).0)

    -- After any trace, each counter of a file and day is the number of the opens of that file on
    -- that day that are classified so, modulo 2 ^ 32. Events that bind names, opens for metadata
    -- and opens of other files or on other days leave it alone.
    pub day_count-run_trace :
        (log : List (SmbEvent × ℤ))
        → day_count platform (run_trace platform log empty_engine) share_guid path day ≡ record {
          reads = count (hits read share_guid path day) log % 2 ^ 32;
          writes = count (hits write share_guid path day) log % 2 ^ 32;
        }
    day_count-run_trace log =
        let fresh : counts empty_engine ≡ no_counts = unfold day_count lookup in refl in
        ground (arith, fresh, day_count-run_trace_from log empty_engine)
