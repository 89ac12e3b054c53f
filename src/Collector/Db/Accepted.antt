-- ===== src/Collector/Db/Accepted.antt =====
-- What an accepted dump has gone through.
use windows_fileserver_heatm.Prelude.{
  ℕ, ◌≡◌, refl, sym, ◌∙◌, ap, List, Bool, true, false, if◌then◌else◌, arith,
}
use windows_fileserver_heatm.Prelude.Order.{nat_ord, int_ord, pair_ord, list_ord}
use windows_fileserver_heatm.Prelude.Map.{lookup}
use windows_fileserver_heatm.Prelude.Text.{Text}
use windows_fileserver_heatm.Prelude.Result.{Result, ok, ◌>>=◌, >>=-eq-ok, ok_or}
use windows_fileserver_heatm.Collector.Ingest.{Header, DumpRow}
use windows_fileserver_heatm.Collector.Db.{
  Store, Engine, IngestError, IngestOutcome, accepted, dedupe_noop, missing_emitted_at,
  non_utc_offset, FileKey, upsert_found, put_fact, upsert_dimension, ingest_row, strip_utc_suffix,
  ingest_rows, apply_dump, gate, ingest, run_row, put_run, already_applied,
}

-- The upsert of a row's file, by what the store holds.
abbrev pub upserted : Text → Text → DumpRow → Store → Store × ℕ
upserted server at row db =
    upsert_found server row at db (lookup {K = FileKey} (server, (row.share, row.path)) db.files)

module _ (engine : Engine) where
  -- One row: the file's upsert, then the fact.
  pub record RowDone (server run ts : Text) (row : DumpRow) (before after : Store) : Type 0 where
    pub at : Text
    pub reads : ℕ
    pub writes : ℕ
    pub reads_kept : engine.integer row.reads ≡ ok reads
    pub writes_kept : engine.integer row.writes ≡ ok writes
    pub done : after ≡ put_fact run row (reads, writes) (upserted server at row before)

  pub ingest_row-RowDone :
      (server run ts : Text) (row : DumpRow) (before after : Store)
      → ingest_row engine server run ts row before ≡ ok after
      → RowDone server run ts row before after
  ingest_row-RowDone server run ts row before after h =
      let (found, e1, rest1) =
        >>=-eq-ok (upsert_dimension engine server row ts before)
          (λ found. engine.integer row.reads >>= λ reads.
            engine.integer row.writes >>= λ writes. ok (put_fact run row (reads, writes) found))
          {b = after} (unfold ingest_row in h) in
      let (reads, e2, rest2) =
        >>=-eq-ok (engine.integer row.reads)
          (λ reads.
            engine.integer row.writes >>= λ writes. ok (put_fact run row (reads, writes) found))
          {b = after} rest1 in
      let (writes, e3, rest3) =
        >>=-eq-ok (engine.integer row.writes)
          (λ writes. ok (put_fact run row (reads, writes) found)) {b = after} rest2 in
      let (at, e4, rest4) =
        >>=-eq-ok (engine.timestamp ts) (λ at. ok (upserted server at row before)) {b = found}
          (unfold upsert_dimension in e1) in
      record {
        at = at;
        reads = reads;
        writes = writes;
        reads_kept = e2;
        writes_kept = e3;
        done = cc;
      }

  -- The gate was open, every row was applied, and the run's row was written last.
  pub record Accepted (before after : Store) (header : Header) (rows : List DumpRow) (run : Text)
      : Type 0 where
    pub ts : Text
    pub at : Text
    pub mid : Store
    pub newer : already_applied header (lookup run before.runs) ≡ false
    pub applied : ingest_rows engine header.server run ts rows before ≡ ok mid
    pub cast : engine.timestamp ts ≡ ok at
    pub committed : after ≡ put_run run (run_row header at (lookup run before.runs)) mid

  apply_dump-Accepted :
      (before after : Store) (header : Header) (rows : List DumpRow) (run ts : Text)
      → already_applied header (lookup run before.runs) ≡ false
      → apply_dump engine header rows run ts (lookup run before.runs) before ≡ ok after
      → Accepted before after header rows run
  apply_dump-Accepted before after header rows run ts newer h =
      let old = lookup run before.runs in
      let (mid, applied, rest) =
        >>=-eq-ok (ingest_rows engine header.server run ts rows before)
          (λ mid. engine.timestamp ts >>= λ at. ok (put_run run (run_row header at old) mid))
          {b = after} (unfold apply_dump in h) in
      let (at, cast, last) =
        >>=-eq-ok (engine.timestamp ts) (λ at. ok (put_run run (run_row header at old) mid))
          {b = after} rest in
      record {
        ts = ts;
        at = at;
        mid = mid;
        newer = newer;
        applied = applied;
        cast = cast;
        committed = cc;
      }

  gate-Accepted :
      (before after : Store) (header : Header) (rows : List DumpRow) (run ts : Text) (b : Bool)
      → already_applied header (lookup run before.runs) ≡ b
      → if◌then◌else◌ {A = Result IngestError (Store × IngestOutcome)} b
          (ok (before, dedupe_noop))
          (apply_dump engine header rows run ts (lookup run before.runs) before >>= λ db.
            ok (db, accepted))
        ≡ ok (after, accepted)
      → Accepted before after header rows run
  gate-Accepted before after header rows run ts true e h = absurd (ground arith)
  gate-Accepted before after header rows run ts false e h =
      let (db, applied, last) =
        >>=-eq-ok (apply_dump engine header rows run ts (lookup run before.runs) before)
          (λ db. ok (db, accepted)) {b = (after, accepted)} h in
      let same : db ≡ after = ground arith in
      apply_dump-Accepted before after header rows run ts e (applied ∙ ap (λ x. ok x) same)

  pub ingest-Accepted :
      (before after : Store) (header : Header) (rows : List DumpRow) (run : Text)
      → engine.uuid header.run_id ≡ ok run
      → ingest engine before header rows ≡ ok (after, accepted)
      → Accepted before after header rows run
  ingest-Accepted before after header rows run e h =
      let (emitted_at, e1, rest1) =
        >>=-eq-ok (ok_or header.emitted_at missing_emitted_at)
          (λ emitted_at. ok_or (strip_utc_suffix emitted_at) (non_utc_offset emitted_at) >>= λ ts.
            engine.uuid header.run_id >>= λ run.
            gate engine header rows run ts (lookup run before.runs) before)
          {b = (after, accepted)} (unfold ingest in h) in
      let (ts, e2, rest2) =
        >>=-eq-ok (ok_or (strip_utc_suffix emitted_at) (non_utc_offset emitted_at))
          (λ ts. engine.uuid header.run_id >>= λ run.
            gate engine header rows run ts (lookup run before.runs) before)
          {b = (after, accepted)} rest1 in
      let (run', e3, rest3) =
        >>=-eq-ok (engine.uuid header.run_id)
          (λ run. gate engine header rows run ts (lookup run before.runs) before)
          {b = (after, accepted)} rest2 in
      let same : run' ≡ run = cc in
      let through : gate engine header rows run ts (lookup run before.runs) before
          ≡ ok (after, accepted) =
        sym (ap (λ r. gate engine header rows r ts (lookup r before.runs) before) same) ∙ rest3 in
      gate-Accepted before after header rows run ts
        (already_applied header (lookup run before.runs)) refl (unfold gate in through)
