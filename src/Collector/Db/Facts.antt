-- ===== src/Collector/Db/Facts.antt =====
-- What the fact table holds after a dump.
use windows_fileserver_heatm.Prelude.{ℕ, ◌≡◌, refl, sym, ◌∙◌, ap, List, [], ◌∷◌}
use mathlib.Core.Path.{ap₂, subst}
use windows_fileserver_heatm.Prelude.Int.{ℤ}
use windows_fileserver_heatm.Prelude.Order.{nat_ord, int_ord, pair_ord, list_ord}
use windows_fileserver_heatm.Prelude.Map.{lookup}
use windows_fileserver_heatm.Prelude.Text.{Text}
use windows_fileserver_heatm.Prelude.Result.{ok, >>=-eq-ok}
use windows_fileserver_heatm.Collector.Ingest.{Header, DumpRow}
use windows_fileserver_heatm.Collector.Db.{
  Store, FileKey, RunRow, Engine, accepted, put_fact, ingest_row, ingest_rows, ingest, run_row,
  put_run,
}
use windows_fileserver_heatm.Collector.Db.Files.{IsWellFormed, fact, last_write}
use windows_fileserver_heatm.Collector.Db.Upserts.{
  upsert_found-Upserted, put_fact-IsWellFormed, put_fact-fact,
}
use windows_fileserver_heatm.Collector.Db.Accepted.{ingest-Accepted, upserted, ingest_row-RowDone}

module _ (engine : Engine) where
  -- The engine stores a number as it is, or refuses it.
  abbrev pub KeepsNumbers : Type 0
  KeepsNumbers = (n m : ℕ) → engine.integer n ≡ ok m → m ≡ n

  -- What a part of a dump does to the store.
  record Writes (server run : Text) (rows : List DumpRow) (before after : Store) : Type 0 where
    well_formed : IsWellFormed after
    facts :
        (k : FileKey) (r : Text) (day : ℤ)
        → fact after k r day ≡ last_write server run rows k r day (fact before k r day)

  row_written :
      (server run at : Text) (row : DumpRow) (before : Store)
      → IsWellFormed before
      → Writes server run
          (row ∷ [])
          before
          (put_fact run row (row.reads, row.writes) (upserted server at row before))
  unfolding last_write
  row_written server run at row before w =
      let r = upserted server at row before in
      let key : FileKey = (server, (row.share, row.path)) in
      let u =
        upsert_found-Upserted server row at before (lookup {K = FileKey} key before.files) w refl in
      record {
        well_formed = put_fact-IsWellFormed run row (row.reads, row.writes) before r.0 key r.1 u;
        facts = put_fact-fact run row (row.reads, row.writes) before r.0 key r.1 u;
      }

  ingest_row-Writes :
      (server run ts : Text) (row : DumpRow) (before after : Store)
      → KeepsNumbers
      → IsWellFormed before
      → ingest_row engine server run ts row before ≡ ok after
      → Writes server run (row ∷ []) before after
  unfolding last_write
  ingest_row-Writes server run ts row before after keeps w h =
      let d = ingest_row-RowDone engine server run ts row before after h in
      let same : (d.reads, d.writes) ≡ (row.reads, row.writes) =
        ap₂ (λ r v. (r, v)) (keeps row.reads d.reads d.reads_kept)
          (keeps row.writes d.writes d.writes_kept) in
      subst (Writes server run (row ∷ []) before)
        (sym (d.done ∙ ap (λ c. put_fact run row c (upserted server d.at row before)) same))
        (row_written server run d.at row before w)

  ingest_rows-Writes :
      (server run ts : Text) (rows : List DumpRow) (before after : Store)
      → KeepsNumbers
      → IsWellFormed before
      → ingest_rows engine server run ts rows before ≡ ok after
      → Writes server run rows before after
  unfolding last_write ingest_rows
  ingest_rows-Writes server run ts [] before after keeps w h =
      let same : before ≡ after = cc in
      subst (Writes server run [] before) same (record { well_formed = w; facts = λ k r day. refl })
  ingest_rows-Writes server run ts (row ∷ rows) before after keeps w h =
      let (mid, e, rest) =
        >>=-eq-ok (ingest_row engine server run ts row before)
          (λ mid. ingest_rows engine server run ts rows mid) h in
      let first = ingest_row-Writes server run ts row before mid keeps w e in
      let more = ingest_rows-Writes server run ts rows mid after keeps first.well_formed rest in
      record {
        well_formed = more.well_formed;
        facts = λ k r day.
            more.facts k r day
            ∙ ap (λ b. last_write server run rows k r day b) (first.facts k r day);
      }

  -- After an accepted dump a fact of a file, a run and a day is that of the last row of the dump
  -- about it; facts that no row is about stay as they were. The store stays well-formed. The dump's
  -- run is what the engine reads in the header's id, and the engine keeps the numbers that it
  -- stores.
  pub ingest-facts :
      (before after : Store) (header : Header) (rows : List DumpRow) (run : Text)
      → KeepsNumbers
      → IsWellFormed before
      → engine.uuid header.run_id ≡ ok run
      → ingest engine before header rows ≡ ok (after, accepted)
      → IsWellFormed after
        × ((k : FileKey) (r : Text) (day : ℤ)
            → fact after k r day ≡ last_write header.server run rows k r day (fact before k r day))
  ingest-facts before after header rows run keeps w e h =
      let a = ingest-Accepted engine before after header rows run e h in
      let done = ingest_rows-Writes header.server run a.ts rows before a.mid keeps w a.applied in
      subst
        (λ db.
          IsWellFormed db
          × ((k : FileKey) (r : Text) (day : ℤ)
              → fact db k r day ≡ last_write header.server run rows k r day (fact before k r day)))
        (sym a.committed)
        (
          committed_lem a.mid (run_row header a.at (lookup run before.runs)) done.well_formed,
          done.facts,
        )
    where
      committed_lem : (db : Store) (r : RunRow) → IsWellFormed db → IsWellFormed (put_run run r db)
      committed_lem db r w = record {
        id_bound = w.id_bound;
        id_unique = w.id_unique;
        fact_bound = w.fact_bound;
      }
