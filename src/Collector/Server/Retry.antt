-- ===== src/Collector/Server/Retry.antt =====
-- A dump that is posted again, at once or after other requests.
use mathlib.Core.Path.{subst}
use windows_fileserver_heatm.Prelude.{
  ◌≤◌, ◌≡◌, refl, sym, ◌∙◌, ap, Option, none, some, List, [], length, arith,
}
use windows_fileserver_heatm.Prelude.Order.{nat_ord, list_ord}
use windows_fileserver_heatm.Prelude.Map.{Map, insert}
use windows_fileserver_heatm.Prelude.Text.{Text}
use windows_fileserver_heatm.Prelude.Result.{Result, ok, err}
use windows_fileserver_heatm.Collector.Archive.Files.{IsHealthy}
use windows_fileserver_heatm.Collector.Archive.Places.{place_of}
use windows_fileserver_heatm.Collector.Ingest.{
  Header, DumpRow, Disposition, malformed, rejected, accepted, Wire, classify,
}
use windows_fileserver_heatm.Collector.Db
use windows_fileserver_heatm.Collector.Db.{Store, Engine, IngestOutcome, IngestError, ingest}
use windows_fileserver_heatm.Collector.Db.Replay.{
  IsApplied, ingest_applied, ingest-IsApplied, IsApplied-ingest,
}
use windows_fileserver_heatm.Collector.Server.{
  Request, Reply, LogLine, State, Host, max_body, ingested, answer, handle_post,
}
use windows_fileserver_heatm.Collector.Server.Handling.{handle_post_lem}
use windows_fileserver_heatm.Collector.Server.Keeping.{IsStable, serve_keeps}
use windows_fileserver_heatm.Collector.Server.Startup.{serve}

-- A response of 200 that leaves the database alone.
pub record IsRepeat (s : State) (r : State × (Reply × LogLine)) : Type 0 where
  pub status_ok : r.1.0.status ≡ 200
  pub same_db : r.0.db ≡ s.db

-- The state with another archive.
abbrev with_archive : Map Text Text → State → State
with_archive m s = record s { archive = m }

-- The dump of a disposition is in the database, if there is one.
abbrev pub IsSettled : Engine → Disposition → Option Store → Type 0
IsSettled engine (malformed reason) db = ⊥
IsSettled engine (rejected header reason) db = ⊥
IsSettled engine (accepted header rows) none = Unit
IsSettled engine (accepted header rows) (some db) = IsApplied engine header db

IsSettled-IsStable : (engine : Engine) (d : Disposition) → IsStable engine (IsSettled engine d)
IsSettled-IsStable engine (malformed reason) other more before after o e h = h
IsSettled-IsStable engine (rejected header reason) other more before after o e h = h
IsSettled-IsStable engine (accepted header rows) other more before after o e h =
    IsApplied-ingest engine header other more before after o e h

ingested-IsSettled :
    (engine : Engine) (header : Header) (rows : List DumpRow) (n : Text) (s : State) (db : Store)
    (r : Result IngestError (Store × IngestOutcome))
    → ingest engine db header rows ≡ r
    → (ingested (accepted header rows) n s r).1.0.status ≡ 200
    → IsSettled engine (accepted header rows) (ingested (accepted header rows) n s r).0.db
unfolding ingested
ingested-IsSettled engine header rows n s db (ok (after, Db.accepted)) e h =
    ingest-IsApplied engine db after header rows Db.accepted e
ingested-IsSettled engine header rows n s db (ok (after, Db.dedupe_noop)) e h =
    ingest-IsApplied engine db after header rows Db.dedupe_noop e
ingested-IsSettled engine header rows n s db (err problem) e h = absurd (omega arith)

-- A dump that was answered with 200 is in the database.
answer-IsSettled :
    (engine : Engine) (d : Disposition) (s : State) (db : Option Store)
    → s.db ≡ db
    → (answer engine d s db).1.0.status ≡ 200
    → IsSettled engine d (answer engine d s db).0.db
unfolding answer
answer-IsSettled engine (malformed reason) s db e h = absurd (omega arith)
answer-IsSettled engine (rejected header reason) s db e h = absurd (omega arith)
answer-IsSettled engine (accepted header rows) s none e h =
    subst (IsSettled engine (accepted header rows)) (sym e) tt
answer-IsSettled engine (accepted header rows) s (some db) e h =
    ingested-IsSettled engine header rows _ s db (ingest engine db header rows) refl h

answer_settled :
    (engine : Engine) (d : Disposition) (s t : State) (db : Option Store)
    → s.db ≡ db
    → t.db ≡ db
    → IsSettled engine d db
    → IsRepeat s (answer engine d t db)
unfolding answer ingested
answer_settled engine (malformed reason) s t db e e' h = absurd h
answer_settled engine (rejected header reason) s t db e e' h = absurd h
answer_settled engine (accepted header rows) s t none e e' h = record {
  status_ok = refl;
  same_db = e' ∙ sym e;
}
answer_settled engine (accepted header rows) s t (some db) e e' h =
    rw (ingest_applied engine db header rows h) (record { status_ok = refl; same_db = sym e })

module _ (first later : Host) (wire : Wire) (engine : Engine) where
  -- A dump that was delivered stays delivered: where a body was answered with 200, and the collector
  -- has then answered any other requests, posting the same body again is answered with 200 and
  -- leaves the database as it is. The body has at most 256 MiB, and neither post of it meets an
  -- error of reading it or of the file system.
  pub handle_post-later :
      (sent : Text) (s : State) (requests : List (Host × Request))
      → length sent ≤ max_body
      → first.read_error ≡ none
      → IsHealthy first.disk
      → later.read_error ≡ none
      → IsHealthy later.disk
      → (handle_post first wire engine sent s).1.0.status ≡ 200
      → let after = (serve wire engine requests (handle_post first wire engine sent s).0).0 in
        IsRepeat after (handle_post later wire engine sent after)
  handle_post-later sent s requests fits r1 w1 r2 w2 h =
      let d = classify wire sent in
      let t = with_archive (insert (place_of first.now_millis d) sent s.archive) s in
      let one = handle_post_lem first wire engine sent s fits r1 w1 in
      let answered = ap (λ (r : State × (Reply × LogLine)). r.1.0.status) (sym one) ∙ h in
      let settled =
        subst (λ (r : State × (Reply × LogLine)). IsSettled engine d r.0.db) (sym one)
          (answer-IsSettled engine d t s.db refl answered) in
      let after = (serve wire engine requests (handle_post first wire engine sent s).0).0 in
      let still =
        serve_keeps engine (IsSettled engine d) (IsSettled-IsStable engine d) wire requests _
          settled in
      let two = handle_post_lem later wire engine sent after fits r2 w2 in
      subst (IsRepeat after) (sym two) (answer_settled engine d after _ after.db refl refl still)

  -- A sender may repeat a post: where a body was answered with 200, posting the same body again, at
  -- any later time, is answered with 200 and leaves the database as it is. The body has at most
  -- 256 MiB, and neither call meets an error of reading it or of writing the archive.
  pub handle_post-again :
      (sent : Text) (s : State)
      → length sent ≤ max_body
      → first.read_error ≡ none
      → IsHealthy first.disk
      → later.read_error ≡ none
      → IsHealthy later.disk
      → (handle_post first wire engine sent s).1.0.status ≡ 200
      → let after = (handle_post first wire engine sent s).0 in
        IsRepeat after (handle_post later wire engine sent after)
  unfolding serve
  handle_post-again sent s fits r1 w1 r2 w2 h = handle_post-later sent s [] fits r1 w1 r2 w2 h
