-- ===== src/Collector/Db/Replay.antt =====
-- A dump that is delivered again, at once or after other dumps.
use mathlib.Core.Path.{subst}
use windows_fileserver_heatm.Prelude.{
  ◌≡◌, ◌≢◌, refl, sym, ◌∙◌, ap, Option, none, some, List, Bool, true, false, Bool-cases, inl, inr,
  if◌then◌else◌, arith,
}
use windows_fileserver_heatm.Prelude.Int.{◌≤ℤ◌, as_i32}
use windows_fileserver_heatm.Prelude.Order.{nat_ord, list_ord, ◌==◌, ==_iff}
use windows_fileserver_heatm.Prelude.Map.{lookup}
use windows_fileserver_heatm.Prelude.Text.{Text}
use windows_fileserver_heatm.Prelude.Result.{Result, ok_or-eq-ok, ok_or, ok, >>=-eq-ok, ◌>>=◌}
use windows_fileserver_heatm.Collector.Ingest.{Header, DumpRow}
use windows_fileserver_heatm.Collector.Db.{
  Store, RunRow, Engine, IngestOutcome, IngestError, missing_emitted_at, non_utc_offset, accepted,
  dedupe_noop, strip_utc_suffix, apply_dump, gate, ingest, already_applied,
}
use windows_fileserver_heatm.Collector.Db.Runs.{ingest-runs, already_applied_lem}

module _ (engine : Engine) where
  -- What a call that succeeds has read: the time, and the run.
  record Gated (before after : Store) (header : Header) (rows : List DumpRow)
      (outcome : IngestOutcome) : Type 0 where
    run : Text
    time : Text
    ts : Text
    run_eq : engine.uuid header.run_id ≡ ok run
    time_eq : header.emitted_at ≡ some time
    ts_eq : strip_utc_suffix time ≡ some ts
    gated : gate engine header rows run ts (lookup run before.runs) before ≡ ok (after, outcome)

  ingest-Gated :
      (before after : Store) (header : Header) (rows : List DumpRow) (outcome : IngestOutcome)
      → ingest engine before header rows ≡ ok (after, outcome)
      → Gated before after header rows outcome
  ingest-Gated before after header rows outcome h =
      let (time, e1, rest1) =
        >>=-eq-ok (ok_or header.emitted_at missing_emitted_at)
          (λ time. ok_or (strip_utc_suffix time) (non_utc_offset time) >>= λ ts.
            engine.uuid header.run_id >>= λ run.
            gate engine header rows run ts (lookup run before.runs) before)
          {b = (after, outcome)} (unfold ingest in h) in
      let (ts, e2, rest2) =
        >>=-eq-ok (ok_or (strip_utc_suffix time) (non_utc_offset time))
          (λ ts. engine.uuid header.run_id >>= λ run.
            gate engine header rows run ts (lookup run before.runs) before)
          {b = (after, outcome)} rest1 in
      let (run, e3, rest3) =
        >>=-eq-ok (engine.uuid header.run_id)
          (λ run. gate engine header rows run ts (lookup run before.runs) before)
          {b = (after, outcome)} rest2 in
      record {
        run = run;
        time = time;
        ts = ts;
        run_eq = e3;
        time_eq = ok_or-eq-ok header.emitted_at missing_emitted_at e1;
        ts_eq = ok_or-eq-ok (strip_utc_suffix time) (non_utc_offset time) e2;
        gated = rest3;
      }

  -- The run of a call that succeeds.
  pub ingest_run :
      (before after : Store) (header : Header) (rows : List DumpRow) (outcome : IngestOutcome)
      → ingest engine before header rows ≡ ok (after, outcome)
      → (run : Text) × (engine.uuid header.run_id ≡ ok run)
  ingest_run before after header rows outcome h =
      let g = ingest-Gated before after header rows outcome h in (g.run, g.run_eq)

  -- The store has the dump's number for its run, or a larger one.
  pub record IsApplied (header : Header) (db : Store) : Type 0 where
    pub run : Text
    pub time : Text
    pub ts : Text
    pub row : RunRow
    pub run_eq : engine.uuid header.run_id ≡ ok run
    pub time_eq : header.emitted_at ≡ some time
    pub ts_eq : strip_utc_suffix time ≡ some ts
    pub stored : lookup run db.runs ≡ some row
    pub reached : as_i32 header.dump_seq ≤ℤ row.last_dump_seq

  pub ingest_applied :
      (db : Store) (header : Header) (rows : List DumpRow)
      → IsApplied header db
      → ingest engine db header rows ≡ ok (db, dedupe_noop)
  unfolding ingest gate
  ingest_applied db header rows a =
      rw (a.time_eq, ingest)
        (rw (a.ts_eq, a.run_eq)
          (rw (a.stored, gate) (rw (already_applied_lem engine header a.row a.reached) refl)))

  -- The gate, by whether the dump was applied already.
  noop_inverted :
      (before after : Store) (header : Header) (rows : List DumpRow) (run ts : Text) (b : Bool)
      → if◌then◌else◌ {A = Result IngestError (Store × IngestOutcome)} b
          (ok (before, dedupe_noop))
          (apply_dump engine header rows run ts (lookup run before.runs) before >>= λ db.
            ok (db, accepted))
        ≡ ok (after, dedupe_noop)
      → (b ≡ true) × (before ≡ after)
  noop_inverted before after header rows run ts true h = (refl, cc)
  noop_inverted before after header rows run ts false h =
      let (db, applied, last) =
        >>=-eq-ok (apply_dump engine header rows run ts (lookup run before.runs) before)
          (λ db. ok (db, accepted)) {b = (after, dedupe_noop)} h in
      absurd (ground arith)

  pub ingest_noop :
      (before after : Store) (header : Header) (rows : List DumpRow)
      → ingest engine before header rows ≡ ok (after, dedupe_noop)
      → before ≡ after
  ingest_noop before after header rows h =
      let g = ingest-Gated before after header rows dedupe_noop h in
      (noop_inverted before after header rows g.run g.ts
        (already_applied header (lookup g.run before.runs)) (unfold gate in g.gated)).1

  applied_row :
      (header : Header) (old : Option RunRow)
      → already_applied header old ≡ true
      → (row : RunRow) × (old ≡ some row) × (as_i32 header.dump_seq ≤ℤ row.last_dump_seq)
  applied_row header none h = absurd (cc)
  applied_row header (some row) h = (row, refl, ground arith)

  -- A call that succeeds, with whatever outcome, leaves the dump applied.
  pub ingest-IsApplied :
      (before after : Store) (header : Header) (rows : List DumpRow) (outcome : IngestOutcome)
      → ingest engine before header rows ≡ ok (after, outcome)
      → IsApplied header after
  ingest-IsApplied before after header rows accepted h =
      let g = ingest-Gated before after header rows accepted h in
      let w = ingest-runs engine before after header rows g.run g.run_eq h in
      record {
        run = g.run;
        time = g.time;
        ts = g.ts;
        row = w.new;
        run_eq = g.run_eq;
        time_eq = g.time_eq;
        ts_eq = g.ts_eq;
        stored = w.stored;
        reached = subst (λ x. as_i32 header.dump_seq ≤ℤ x) (sym w.seq) (omega arith);
      }
  ingest-IsApplied before after header rows dedupe_noop h =
      let g = ingest-Gated before after header rows dedupe_noop h in
      let (applied, same) =
        noop_inverted before after header rows g.run g.ts
          (already_applied header (lookup g.run before.runs)) (unfold gate in g.gated) in
      let (row, found, reached) = applied_row header (lookup g.run before.runs) applied in
      record {
        run = g.run;
        time = g.time;
        ts = g.ts;
        row = row;
        run_eq = g.run_eq;
        time_eq = g.time_eq;
        ts_eq = g.ts_eq;
        stored = ap (λ (db : Store). lookup g.run db.runs) (sym same) ∙ found;
        reached = reached;
      }

  -- The number of a run does not shrink.
  grown :
      (before after : Store) (header : Header) (rows : List DumpRow) (r : Text) (old : RunRow)
      → ingest engine before header rows ≡ ok (after, accepted)
      → lookup r before.runs ≡ some old
      → (new : RunRow) × (lookup r after.runs ≡ some new) × (old.last_dump_seq ≤ℤ new.last_dump_seq)
  grown before after header rows r old h found =
      let g = ingest-Gated before after header rows accepted h in
      let w = ingest-runs engine before after header rows g.run g.run_eq h in
      elim (Bool-cases (g.run == r)) [
        | inl own ↦
            let same : g.run ≡ r = (==_iff g.run r).0 own in
            let kept = w.old_kept old (ap (λ x. lookup x before.runs) same ∙ found) in
            (w.new, ap (λ x. lookup x after.runs) (sym same) ∙ w.stored, ground (arith, kept.2))
        | inr other ↦
            let away : g.run ≢ r = λ e. absurd (ground (arith, other, (==_iff g.run r).1 e)) in
            (old, w.others r away ∙ found, omega arith)
      ]

  -- What is applied stays applied.
  pub IsApplied-ingest :
      (header other : Header) (rows : List DumpRow) (before after : Store) (outcome : IngestOutcome)
      → ingest engine before other rows ≡ ok (after, outcome)
      → IsApplied header before
      → IsApplied header after
  IsApplied-ingest header other rows before after accepted h a =
      let (new, stored, more) = grown before after other rows a.run a.row h a.stored in
      record {
        run = a.run;
        time = a.time;
        ts = a.ts;
        row = new;
        run_eq = a.run_eq;
        time_eq = a.time_eq;
        ts_eq = a.ts_eq;
        stored = stored;
        reached = omega (arith, a.reached, more);
      }
  IsApplied-ingest header other rows before after dedupe_noop h a =
      subst (IsApplied header) (ingest_noop before after other rows h) a

  -- Delivering one dump twice is delivering it once: after a call that succeeded, with whatever
  -- outcome, the same call is a no-op.
  pub ingest_twice :
      (before after : Store) (header : Header) (rows : List DumpRow) (outcome : IngestOutcome)
      → ingest engine before header rows ≡ ok (after, outcome)
      → ingest engine after header rows ≡ ok (after, dedupe_noop)
  ingest_twice before after header rows outcome h =
      ingest_applied after header rows (ingest-IsApplied before after header rows outcome h)
