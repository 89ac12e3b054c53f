-- ===== src/Collector/Server/Keeping.antt =====
-- Induction over the requests that a collector answers: what no dump ends, no request ends.
use windows_fileserver_heatm.Prelude.{
  ◌≡◌, refl, Option, none, some, List, [], ◌∷◌, Bool, true, false, ◌+◌, take,
}
use windows_fileserver_heatm.Prelude.Order.{nat_ord, list_ord, pair_ord}
use windows_fileserver_heatm.Prelude.Lists.{All}
use windows_fileserver_heatm.Prelude.Text.{Text}
use windows_fileserver_heatm.Prelude.Result.{Result, ok, err}
use windows_fileserver_heatm.Collector.Ingest.{
  Header, DumpRow, Disposition, malformed, rejected, accepted, Wire, classify,
}
use windows_fileserver_heatm.Collector.Archive.{Written}
use windows_fileserver_heatm.Collector.Db
use windows_fileserver_heatm.Collector.Db.{
  Store, Engine, IngestOutcome, IngestError, ingest, FileKey, FileRow,
}
use windows_fileserver_heatm.Collector.Server.{
  max_body, Method, get, post, other_method, Request, State, Host, posted, routed, handle_get,
  archived, after_archive, ingested, answer, archive_and_answer, handle_post, handle,
}
use windows_fileserver_heatm.Collector.Server.Startup.{serve}

-- What no dump with such a header ends.
abbrev pub IsStableFor : Engine → (Header → Type 0) → (Option Store → Type 0) → Type 0
IsStableFor engine Admits P =
    (header : Header) (rows : List DumpRow) (before after : Store) (outcome : IngestOutcome)
    → Admits header
    → ingest engine before header rows ≡ ok (after, outcome)
    → P (some before)
    → P (some after)

-- What no dump ends.
abbrev pub IsStable : Engine → (Option Store → Type 0) → Type 0
IsStable engine P =
    (header : Header) (rows : List DumpRow) (before after : Store) (outcome : IngestOutcome)
    → ingest engine before header rows ≡ ok (after, outcome)
    → P (some before)
    → P (some after)

-- A body that, if it is a dump at all, has such a header.
abbrev pub AdmitsBody : Wire → (Header → Type 0) → Text → Type 0
AdmitsBody wire Admits sent =
    (header : Header) (rows : List DumpRow)
    → classify wire (take (max_body + 1) sent) ≡ accepted header rows
    → Admits header

abbrev pub AdmitsAll : Wire → (Header → Type 0) → List (Host × Request) → Type 0
AdmitsAll wire Admits = All (λ (r : Host × Request). AdmitsBody wire Admits r.1.body)

module _ (engine : Engine) (Admits : Header → Type 0) (P : Option Store → Type 0)
    (stable : IsStableFor engine Admits P) where
  ingested_keeps :
      (header : Header) (rows : List DumpRow) (n : Text) (s : State) (db : Store)
      (r : Result IngestError (Store × IngestOutcome))
      → Admits header
      → ingest engine db header rows ≡ r
      → P (some db)
      → P s.db
      → P (ingested (accepted header rows) n s r).0.db
  unfolding ingested
  ingested_keeps header rows n s db (ok (after, Db.accepted)) a e p h =
      stable header rows db after Db.accepted a e p
  ingested_keeps header rows n s db (ok (after, Db.dedupe_noop)) a e p h =
      stable header rows db after Db.dedupe_noop a e p
  ingested_keeps header rows n s db (err problem) a e p h = h

  answer_keeps :
      (d : Disposition) (s : State) (db : Option Store)
      → ((header : Header) (rows : List DumpRow) → d ≡ accepted header rows → Admits header)
      → P db
      → P s.db
      → P (answer engine d s db).0.db
  unfolding answer
  answer_keeps (malformed reason) s db a p h = h
  answer_keeps (rejected header reason) s db a p h = h
  answer_keeps (accepted header rows) s none a p h = h
  answer_keeps (accepted header rows) s (some db) a p h =
      ingested_keeps header rows _ s db (ingest engine db header rows) (a header rows refl) refl p h

  module _ (wire : Wire) where
    posted_keeps :
        (host : Host) (body : Text) (failed : Option Text) (over : Bool) (s : State)
        → ((header : Header) (rows : List DumpRow)
            → classify wire body ≡ accepted header rows
            → Admits header)
        → P s.db
        → P (posted host wire engine body failed over s).0.db
    unfolding posted archive_and_answer after_archive
    posted_keeps host body (some e) over s a h = h
    posted_keeps host body none true s a h = h
    posted_keeps host body none false s a h =
        by_write (archived host.disk host.now_millis (classify wire body) body s.archive)
      where
        by_write : (w : Written) → P (after_archive engine (classify wire body) w s).0.db
        by_write (files, some e) = h
        by_write (files, none) = answer_keeps (classify wire body) _ s.db a h h

    routed_keeps :
        (host : Host) (request : Request) (method : Method) (is_ingest : Bool) (s : State)
        → AdmitsBody wire Admits request.body
        → P s.db
        → P (routed host wire engine request method is_ingest s).0.db
    unfolding routed handle_get handle_post
    routed_keeps host request get _ s a h = h
    routed_keeps host request post true s a h = posted_keeps host _ host.read_error _ s a h
    routed_keeps host request post false s a h = h
    routed_keeps host request other_method _ s a h = h

    -- Requests with such headers end nothing that such dumps do not end.
    pub serve_keeps_for :
        (requests : List (Host × Request)) (s : State)
        → AdmitsAll wire Admits requests
        → P s.db
        → P (serve wire engine requests s).0.db
    unfolding serve handle
    serve_keeps_for [] s a h = h
    serve_keeps_for ((host, request) ∷ requests) s a h =
        serve_keeps_for requests _ a.1 (routed_keeps host request request.method _ s a.0 h)

-- No request ends what no dump ends.
pub serve_keeps :
    (engine : Engine) (P : Option Store → Type 0)
    → IsStable engine P
    → (wire : Wire) (requests : List (Host × Request)) (s : State) → P s.db
    → P (serve wire engine requests s).0.db
serve_keeps engine P stable wire requests s h =
    serve_keeps_for engine (λ header. Unit) P
      (λ header rows before after outcome a e p. stable header rows before after outcome e p) wire
      requests s (admitted requests) h
  where
    admitted : (requests : List (Host × Request)) → AdmitsAll wire (λ header. Unit) requests
    admitted [] = tt
    admitted (r ∷ requests) = (λ header rows e. tt, admitted requests)
