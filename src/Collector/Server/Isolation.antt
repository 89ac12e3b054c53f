-- ===== src/Collector/Server/Isolation.antt =====
-- What the dumps of other runs leave alone.
use mathlib.Core.Path.{subst}
use windows_fileserver_heatm.Prelude.{
  ℕ, ◌≡◌, ◌≢◌, refl, ◌∙◌, ap, Option, some, List, [], ◌∷◌, Bool, false, ◌&&◌, if◌then◌else◌, arith,
}
use windows_fileserver_heatm.Prelude.Int.{ℤ}
use windows_fileserver_heatm.Prelude.Order.{nat_ord, int_ord, pair_ord, list_ord, ◌==◌, ==_differ}
use windows_fileserver_heatm.Prelude.Map.{lookup}
use windows_fileserver_heatm.Prelude.Text.{Text}
use windows_fileserver_heatm.Prelude.Result.{ok}
use windows_fileserver_heatm.Collector.Ingest.{Header, DumpRow, Wire}
use windows_fileserver_heatm.Collector.Db
use windows_fileserver_heatm.Collector.Db.{Store, FileKey, Engine, IngestOutcome, ingest}
use windows_fileserver_heatm.Collector.Db.Files.{IsWellFormed, fact, last_write}
use windows_fileserver_heatm.Collector.Db.Facts.{KeepsNumbers, ingest-facts}
use windows_fileserver_heatm.Collector.Db.Replay.{ingest_run, ingest_noop}
use windows_fileserver_heatm.Collector.Db.Runs.{ingest-runs}
use windows_fileserver_heatm.Collector.Server.{Host, Request, State}
use windows_fileserver_heatm.Collector.Server.Keeping.{AdmitsAll, serve_keeps_for}
use windows_fileserver_heatm.Collector.Server.Startup.{serve}

-- A database that says of a run what another one says.
pub record SameRun (run : Text) (base now : Store) : Type 0 where
  pub well_formed : IsWellFormed now
  pub facts : (k : FileKey) (day : ℤ) → fact now k run day ≡ fact base k run day
  pub row : lookup run now.runs ≡ lookup run base.runs

abbrev pub HasSameRun : Text → Store → Option Store → Type 0
HasSameRun run base db = (now : Store) × (db ≡ some now) × SameRun run base now

-- Rows of another run are not about a run.
last_write_foreign :
    (server other run : Text) (rows : List DumpRow) (k : FileKey) (day : ℤ) (b : Option (ℕ × ℕ))
    → (other == run) ≡ false
    → last_write server other rows k run day b ≡ b
unfolding last_write
last_write_foreign server other run [] k day b h = refl
last_write_foreign server other run (row ∷ rows) k day b h =
    last_write_foreign server other run rows k day _ h
    ∙ not_here (◌==◌ {K = FileKey} (server, (row.share, row.path)) k) (other == run)
        (row.day == day) h
  where
    not_here :
        (x y z : Bool) → y ≡ false → (if x && y && z then some (row.reads, row.writes) else b) ≡ b
    not_here x y z e = ground (arith, e)

-- The header of a dump of another run, or of one that the engine cannot read.
abbrev pub IsForeign : Engine → Text → Header → Type 0
IsForeign engine run header = engine.uuid header.run_id ≢ ok run

module _ (wire : Wire) (engine : Engine) (run : Text) (keeps : KeepsNumbers engine) where
  ingest-SameRun :
      (base : Store) (header : Header) (rows : List DumpRow) (before after : Store)
      (outcome : IngestOutcome)
      → IsForeign engine run header
      → ingest engine before header rows ≡ ok (after, outcome)
      → SameRun run base before
      → SameRun run base after
  ingest-SameRun base header rows before after Db.accepted foreign h s =
      let (other, reads) = ingest_run engine before after header rows Db.accepted h in
      let away : other ≢ run = λ e. foreign (reads ∙ ap (λ r. ok r) e) in
      let done = ingest-facts engine before after header rows other keeps s.well_formed reads h in
      record {
        well_formed = done.0;
        facts = λ k day.
            done.1 k run day
            ∙ last_write_foreign header.server other run rows k day (fact before k run day)
                (==_differ other run away)
            ∙ s.facts k day;
        row = (ingest-runs engine before after header rows other reads h).others run away ∙ s.row;
      }
  ingest-SameRun base header rows before after Db.dedupe_noop foreign h s =
      subst (SameRun run base) (ingest_noop engine before after header rows h) s

  same_store : (now before : Store) → some before ≡ some now → now ≡ before
  same_store now before e = cc

  -- Runs do not disturb one another: whatever requests a collector answers, as long as none of them
  -- posts a dump of a run, every fact of that run and its row in the table of runs stay as they are,
  -- and the tables stay consistent. The engine keeps the numbers that it stores.
  pub serve-HasSameRun :
      (requests : List (Host × Request)) (s : State) (db : Store)
      → AdmitsAll wire (IsForeign engine run) requests
      → s.db ≡ some db
      → IsWellFormed db
      → HasSameRun run db (serve wire engine requests s).0.db
  serve-HasSameRun requests s db foreign e well =
      serve_keeps_for engine (IsForeign engine run) (HasSameRun run db)
        (λ header rows before after outcome away h kept. (
          after,
          refl,
          ingest-SameRun db header rows before after outcome away h
              (subst (SameRun run db) (same_store kept.0 before kept.1) kept.2),
        ))
        wire requests s foreign
        (db, e, record { well_formed = well; facts = λ k day. refl; row = refl })
