-- ===== src/Collector/Db/Runs.antt =====
-- The gate of a run: its sequence number.
use windows_fileserver_heatm.Prelude.{
  ◌^◌, ◌≤◌, ◌<◌, ◌≡◌, ◌≢◌, refl, sym, ◌∙◌, ap, Option, none, some, List, [], ◌∷◌, true, false,
  arith,
}
use mathlib.Core.Path.{subst}
use windows_fileserver_heatm.Prelude.Int.{pos, ◌≤ℤ◌, as_i32}
use windows_fileserver_heatm.Prelude.Order.{nat_ord, int_ord, pair_ord, list_ord}
use windows_fileserver_heatm.Prelude.Map.{lookup, insert_same, insert_other}
use windows_fileserver_heatm.Prelude.Text.{Text}
use windows_fileserver_heatm.Prelude.Result.{ok, >>=-eq-ok}
use windows_fileserver_heatm.Collector.Ingest.{Header, DumpRow}
use windows_fileserver_heatm.Collector.Db.{
  Store, RunRow, Engine, accepted, dedupe_noop, FileKey, FileRow, strip_utc_suffix, upsert_found,
  put_fact, ingest_row, ingest_rows, gate, ingest, run_row, already_applied,
}
use windows_fileserver_heatm.Collector.Db.Accepted.{Accepted, ingest-Accepted, ingest_row-RowDone}

module _ (engine : Engine) where
  last_dump_seq_lem :
      (header : Header) (at : Text) (old : Option RunRow)
      → (run_row header at old).last_dump_seq ≡ as_i32 header.dump_seq
  last_dump_seq_lem header at none = refl
  last_dump_seq_lem header at (some r) = refl

  run_written :
      (before after : Store) (header : Header) (rows : List DumpRow) (run : Text)
      (a : Accepted engine before after header rows run)
      → lookup run after.runs ≡ some (run_row header a.at (lookup run before.runs))
  run_written before after header rows run a =
      let new = run_row header a.at (lookup run before.runs) in
      ap (λ (db : Store). lookup run db.runs) a.committed ∙ insert_same run new a.mid.runs

  pub already_applied_lem :
      (again : Header) (r : RunRow)
      → as_i32 again.dump_seq ≤ℤ r.last_dump_seq
      → already_applied again (some r) ≡ true
  already_applied_lem again r h = ground arith

  -- A dump that has been accepted is a no-op from then on: a dump of the same run whose sequence
  -- number is not larger, whatever its rows, leaves the store as it is, if its time is in UTC.
  pub ingest_again :
      (before after : Store) (header again : Header) (rows more : List DumpRow) (run time ts : Text)
      → engine.uuid header.run_id ≡ ok run
      → ingest engine before header rows ≡ ok (after, accepted)
      → engine.uuid again.run_id ≡ ok run
      → again.emitted_at ≡ some time
      → strip_utc_suffix time ≡ some ts
      → as_i32 again.dump_seq ≤ℤ as_i32 header.dump_seq
      → ingest engine after again more ≡ ok (after, dedupe_noop)
  unfolding ingest gate
  ingest_again before after header again rows more run time ts e h e' time_eq ts_eq le =
      let a = ingest-Accepted engine before after header rows run e h in
      let new = run_row header a.at (lookup run before.runs) in
      let le' =
        subst (λ x. as_i32 again.dump_seq ≤ℤ x)
          (sym (last_dump_seq_lem header a.at (lookup run before.runs))) le in
      rw (time_eq, ingest)
        (rw (ts_eq, e')
          (rw (run_written before after header rows run a, gate)
            (rw (already_applied_lem again new le') refl)))

  already_applied-wrapped :
      (header : Header) (old : RunRow)
      → 2 ^ 31 ≤ header.dump_seq
      → header.dump_seq < 2 ^ 32
      → pos 0 ≤ℤ old.last_dump_seq
      → already_applied header (some old) ≡ true
  already_applied-wrapped header old low high nonneg = ground arith

  -- The sequence number is cast to 32 bits with a sign: for a run whose stored number is not
  -- negative, a dump with a number from 2 ^ 31 on is taken for one that was applied already, and
  -- its rows are dropped.
  pub ingest_wrapped :
      (db : Store) (header : Header) (rows : List DumpRow) (run time ts : Text) (old : RunRow)
      → header.emitted_at ≡ some time
      → strip_utc_suffix time ≡ some ts
      → engine.uuid header.run_id ≡ ok run
      → lookup run db.runs ≡ some old
      → pos 0 ≤ℤ old.last_dump_seq
      → 2 ^ 31 ≤ header.dump_seq
      → header.dump_seq < 2 ^ 32
      → ingest engine db header rows ≡ ok (db, dedupe_noop)
  unfolding ingest gate
  ingest_wrapped db header rows run time ts old time_eq ts_eq e found nonneg low high =
      rw (time_eq, ingest)
        (rw (ts_eq, e)
          (rw (found, gate) (rw (already_applied-wrapped header old low high nonneg) refl)))

  -- What an accepted dump leaves in the table of runs.
  pub record RunWritten (before after : Store) (header : Header) (run : Text) : Type 0 where
    pub new : RunRow
    pub stored : lookup run after.runs ≡ some new
    pub seq : new.last_dump_seq ≡ as_i32 header.dump_seq
    pub old_kept :
        (old : RunRow)
        → lookup run before.runs ≡ some old
        → (new.started_at ≡ old.started_at)
          × (new.server ≡ old.server)
          × ¬ (new.last_dump_seq ≤ℤ old.last_dump_seq)
    pub others : (r : Text) → run ≢ r → lookup r after.runs ≡ lookup r before.runs

  upsert_found-runs :
      (server : Text) (row : DumpRow) (at : Text) (db : Store) (old : Option FileRow)
      → (upsert_found server row at db old).0.runs ≡ db.runs
  unfolding upsert_found
  upsert_found-runs server row at db none = refl
  upsert_found-runs server row at db (some f) = refl

  ingest_row-runs :
      (server run ts : Text) (row : DumpRow) (before after : Store)
      → ingest_row engine server run ts row before ≡ ok after
      → after.runs ≡ before.runs
  ingest_row-runs server run ts row before after h =
      let d = ingest_row-RowDone engine server run ts row before after h in
      ap (λ (db : Store). db.runs) d.done
      ∙ (unfold put_fact in
          upsert_found-runs server row d.at before
            (lookup {K = FileKey} (server, (row.share, row.path)) before.files))

  ingest_rows-runs :
      (server run ts : Text) (rows : List DumpRow) (before after : Store)
      → ingest_rows engine server run ts rows before ≡ ok after
      → after.runs ≡ before.runs
  unfolding ingest_rows
  ingest_rows-runs server run ts [] before after h =
      let same : before ≡ after = cc in ap (λ (db : Store). db.runs) (sym same)
  ingest_rows-runs server run ts (row ∷ rows) before after h =
      let (mid, e, rest) =
        >>=-eq-ok (ingest_row engine server run ts row before)
          (λ mid. ingest_rows engine server run ts rows mid) h in
      ingest_rows-runs server run ts rows mid after rest
      ∙ ingest_row-runs server run ts row before mid e

  -- After an accepted dump its run is stored with the dump's sequence number. A run that was known
  -- keeps its server and its start, and its number has grown. The other runs stay as they were.
  pub ingest-runs :
      (before after : Store) (header : Header) (rows : List DumpRow) (run : Text)
      → engine.uuid header.run_id ≡ ok run
      → ingest engine before header rows ≡ ok (after, accepted)
      → RunWritten before after header run
  ingest-runs before after header rows run e h =
      let a = ingest-Accepted engine before after header rows run e h in
      let new = run_row header a.at (lookup run before.runs) in
      record {
        new = new;
        stored = run_written before after header rows run a;
        seq = last_dump_seq_lem header a.at (lookup run before.runs);
        old_kept = λ old found. kept a.at old (lookup run before.runs) found a.newer;
        others = λ r other.
            ap (λ (db : Store). lookup r db.runs) a.committed
            ∙ insert_other run r new a.mid.runs other
            ∙ ap (lookup r) (ingest_rows-runs header.server run a.ts rows before a.mid a.applied);
      }
    where
      kept :
          (at : Text) (old : RunRow) (o : Option RunRow)
          → o ≡ some old
          → already_applied header o ≡ false
          → ((run_row header at o).started_at ≡ old.started_at)
            × ((run_row header at o).server ≡ old.server)
            × ¬ ((run_row header at o).last_dump_seq ≤ℤ old.last_dump_seq)
      kept at old none found newer = absurd (cc)
      kept at old (some r) found newer =
          let same : r ≡ old = cc in
          (
            ap (λ (x : RunRow). x.started_at) same,
            ap (λ (x : RunRow). x.server) same,
            λ le. ground (arith, ap (λ (x : RunRow). x.last_dump_seq) same),
          )
