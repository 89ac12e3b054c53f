-- ===== src/Collector/Db/Stability.antt =====
-- What a dump leaves of the files that are known already.
use mathlib.Core.Path.{subst}
use windows_fileserver_heatm.Prelude.{
  ◌≡◌, refl, sym, ◌∙◌, ap, Option, none, some, List, [], ◌∷◌, Bool, true, false, if◌then◌else◌,
}
use windows_fileserver_heatm.Prelude.Order.{nat_ord, int_ord, pair_ord, list_ord, ◌==◌, ==_iff}
use windows_fileserver_heatm.Prelude.Map.{lookup, insert, lookup-insert}
use windows_fileserver_heatm.Prelude.Text.{Text}
use windows_fileserver_heatm.Prelude.Result.{ok, >>=-eq-ok}
use windows_fileserver_heatm.Collector.Ingest.{Header, DumpRow}
use windows_fileserver_heatm.Collector.Db.{
  Store, FileKey, FileRow, Engine, IngestOutcome, accepted, dedupe_noop, file_row, upsert_found,
  put_fact, ingest_row, ingest_rows, ingest,
}
use windows_fileserver_heatm.Collector.Db.Accepted.{ingest-Accepted, ingest_row-RowDone}
use windows_fileserver_heatm.Collector.Db.Replay.{ingest_run, ingest_noop}

-- The row of a file later on, with the same id and the same time of first sight.
pub record Kept (k : FileKey) (f : FileRow) (db : Store) : Type 0 where
  pub now : FileRow
  pub stored : lookup {K = FileKey} k db.files ≡ some now
  pub same_id : now.file_id ≡ f.file_id
  pub same_first_seen : now.first_seen ≡ f.first_seen

-- A row that is written over the file's own row, or elsewhere.
written-Kept :
    (key : FileKey) (new : FileRow) (db after : Store) (k : FileKey) (f : FileRow)
    → after.files ≡ insert {K = FileKey} key new db.files
    → lookup {K = FileKey} k db.files ≡ some f
    → (key ≡ k → (new.file_id ≡ f.file_id) × (new.first_seen ≡ f.first_seen))
    → Kept k f after
written-Kept key new db after k f put h own = by_test (key == k) refl
  where
    found :
        lookup {K = FileKey} k after.files
        ≡ (if ◌==◌ {K = FileKey} key k then some new else lookup {K = FileKey} k db.files)
    found = ap (lookup {K = FileKey} k) put ∙ lookup-insert {K = FileKey} key k new db.files

    by_test : (b : Bool) → ◌==◌ {K = FileKey} key k ≡ b → Kept k f after
    by_test true t =
        let same = own ((==_iff {K = FileKey} key k).0 t) in
        record {
          now = new;
          stored = found ∙ ap (λ b. if b then some new else lookup {K = FileKey} k db.files) t;
          same_id = same.0;
          same_first_seen = same.1;
        }
    by_test false t = record {
      now = f;
      stored = found ∙ ap (λ b. if b then some new else lookup {K = FileKey} k db.files) t ∙ h;
      same_id = refl;
      same_first_seen = refl;
    }

upsert_found-Kept :
    (server : Text) (row : DumpRow) (at : Text) (db : Store) (old : Option FileRow)
    → lookup {K = FileKey} (server, (row.share, row.path)) db.files ≡ old
    → (k : FileKey) (f : FileRow) → lookup {K = FileKey} k db.files ≡ some f
    → Kept k f (upsert_found server row at db old).0
unfolding upsert_found
upsert_found-Kept server row at db none e k f h =
    let key : FileKey = (server, (row.share, row.path)) in
    written-Kept key (file_row db.next_id at row at) db (upsert_found server row at db none).0 k f
      refl h
      (λ same. let e' = sym e ∙ ap (λ p. lookup {K = FileKey} p db.files) same ∙ h in absurd (cc))
upsert_found-Kept server row at db (some g) e k f h =
    let key : FileKey = (server, (row.share, row.path)) in
    written-Kept key (file_row g.file_id g.first_seen row at) db
      (upsert_found server row at db (some g)).0 k f refl h
      (λ same.
        let e' = sym e ∙ ap (λ p. lookup {K = FileKey} p db.files) same ∙ h in
        let own : g ≡ f = cc in
        (ap (λ (x : FileRow). x.file_id) own, ap (λ (x : FileRow). x.first_seen) own))

ingest_row-Kept :
    (engine : Engine) (server run ts : Text) (row : DumpRow) (before after : Store)
    → ingest_row engine server run ts row before ≡ ok after
    → (k : FileKey) (f : FileRow) → lookup {K = FileKey} k before.files ≡ some f
    → Kept k f after
unfolding put_fact
ingest_row-Kept engine server run ts row before after h k f found =
    let d = ingest_row-RowDone engine server run ts row before after h in
    let u =
      upsert_found-Kept server row d.at before
        (lookup {K = FileKey} (server, (row.share, row.path)) before.files) refl k f found in
    record {
      now = u.now;
      stored = ap (λ (db : Store). lookup {K = FileKey} k db.files) d.done ∙ u.stored;
      same_id = u.same_id;
      same_first_seen = u.same_first_seen;
    }

ingest_rows-Kept :
    (engine : Engine) (server run ts : Text) (rows : List DumpRow) (before after : Store)
    → ingest_rows engine server run ts rows before ≡ ok after
    → (k : FileKey) (f : FileRow) → lookup {K = FileKey} k before.files ≡ some f
    → Kept k f after
unfolding ingest_rows
ingest_rows-Kept engine server run ts [] before after h k f found =
    let same : before ≡ after = cc in
    record {
      now = f;
      stored = ap (λ (db : Store). lookup {K = FileKey} k db.files) (sym same) ∙ found;
      same_id = refl;
      same_first_seen = refl;
    }
ingest_rows-Kept engine server run ts (row ∷ rows) before after h k f found =
    let (mid, e, rest) =
      >>=-eq-ok (ingest_row engine server run ts row before)
        (λ mid. ingest_rows engine server run ts rows mid) h in
    let u = ingest_row-Kept engine server run ts row before mid e k f found in
    let v = ingest_rows-Kept engine server run ts rows mid after rest k u.now u.stored in
    record {
      now = v.now;
      stored = v.stored;
      same_id = v.same_id ∙ u.same_id;
      same_first_seen = v.same_first_seen ∙ u.same_first_seen;
    }

-- An accepted dump keeps every file that the store knows, with its id and its time of first sight.
pub ingest-Kept :
    (engine : Engine) (before after : Store) (header : Header) (rows : List DumpRow) (run : Text)
    → engine.uuid header.run_id ≡ ok run
    → ingest engine before header rows ≡ ok (after, accepted)
    → (k : FileKey) (f : FileRow) → lookup {K = FileKey} k before.files ≡ some f
    → Kept k f after
ingest-Kept engine before after header rows run e h k f found =
    let a = ingest-Accepted engine before after header rows run e h in
    let u = ingest_rows-Kept engine header.server run a.ts rows before a.mid a.applied k f found in
    record {
      now = u.now;
      stored = ap (λ (db : Store). lookup {K = FileKey} k db.files) a.committed ∙ u.stored;
      same_id = u.same_id;
      same_first_seen = u.same_first_seen;
    }

-- A file that is kept stays kept.
pub Kept-ingest :
    (engine : Engine) (k : FileKey) (f : FileRow) (header : Header) (rows : List DumpRow)
    (before after : Store) (outcome : IngestOutcome)
    → ingest engine before header rows ≡ ok (after, outcome)
    → Kept k f before
    → Kept k f after
Kept-ingest engine k f header rows before after accepted h kept =
    let run = ingest_run engine before after header rows accepted h in
    let u = ingest-Kept engine before after header rows run.0 run.1 h k kept.now kept.stored in
    record {
      now = u.now;
      stored = u.stored;
      same_id = u.same_id ∙ kept.same_id;
      same_first_seen = u.same_first_seen ∙ kept.same_first_seen;
    }
Kept-ingest engine k f header rows before after dedupe_noop h kept =
    subst (Kept k f) (ingest_noop engine before after header rows h) kept
