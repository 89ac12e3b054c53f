-- ===== src/EndToEnd/Delivery.antt =====
-- One flush of the agent, posted to the collector, in the collector's tables.
use mathlib.Core.Path.{subst}
use windows_fileserver_heatm.Prelude.{
  ◌≤◌, ◌≡◌, refl, sym, ◌∙◌, ap, Option, none, some, List, [], Bool, true, false, length, map,
  if◌then◌else◌,
}
use windows_fileserver_heatm.Prelude.Int.{ℤ}
use windows_fileserver_heatm.Prelude.Map.{insert}
use windows_fileserver_heatm.Prelude.Order.{nat_ord, list_ord}
use windows_fileserver_heatm.Prelude.Result.{ok}
use windows_fileserver_heatm.Prelude.Text.{Text}
use windows_fileserver_heatm.Agent.Platform.{Platform}
use windows_fileserver_heatm.Agent.Correlation.Emission.{emit_rows}
use windows_fileserver_heatm.Agent.Emit.{Meta, Serializer, document}
use windows_fileserver_heatm.Agent.Flusher.{FlushCtx, Moment, want_ndjson, flush}
use windows_fileserver_heatm.Collector.Archive.Files.{IsHealthy}
use windows_fileserver_heatm.Collector.Archive.Places.{place_of}
use windows_fileserver_heatm.Collector.Ingest.{
  Wire, Header, DumpRow, accepted, is_valid_server, is_valid_uuid, classify,
}
use windows_fileserver_heatm.Collector.Db
use windows_fileserver_heatm.Collector.Db.{Store, FileKey, Engine, IngestOutcome, ingest}
use windows_fileserver_heatm.Collector.Db.Files.{IsWellFormed, fact, last_write}
use windows_fileserver_heatm.Collector.Db.Facts.{KeepsNumbers, ingest-facts}
use windows_fileserver_heatm.Collector.Server.{
  Host, State, Reply, LogLine, max_body, ingested, answer, handle_post,
}
use windows_fileserver_heatm.Collector.Server.Handling.{handle_post_lem}
use windows_fileserver_heatm.EndToEnd.{
  CarriesHeader, CarriesRows, CarriesFooter, dump_row, header_of, classify-document,
}

-- The identity of the dump that a flush writes.
abbrev pub meta_of : FlushCtx → Moment → Meta
meta_of ctx m = record {
  server = ctx.server;
  run_id = ctx.run_id;
  dump_seq = ctx.dump_seq;
  emitted_at = m.rfc3339_now;
  walked_shares = ctx.walked_shares;
}

module _ (platform : Platform) (to_string : Serializer) where
  -- A flush that has a document for its sinks has that of the rows at its wake.
  flushed_document :
      (ctx : FlushCtx) (m : Moment) (doc : Text)
      → (flush platform to_string ctx m).1.ndjson ≡ some doc
      → document to_string (meta_of ctx m) (emit_rows platform m.engine) ≡ doc
  unfolding flush
  flushed_document ctx m doc h = by_want (want_ndjson ctx) h
    where
      stamped : Bool → Meta
      stamped b = record (meta_of ctx m) { emitted_at = if b then m.rfc3339_now else [] }

      by_want :
          (b : Bool)
          → (if b
              then some (document to_string (stamped b) (emit_rows platform m.engine))
              else none)
            ≡ some doc
          → document to_string (meta_of ctx m) (emit_rows platform m.engine) ≡ doc
      by_want true e = cc e
      by_want false e = cc e

  answer-accepted :
      (engine : Engine) (header : Header) (rows : List DumpRow) (s : State) (db : Option Store)
      (before after : Store)
      → db ≡ some before
      → ingest engine before header rows ≡ ok (after, Db.accepted)
      → ((answer engine (accepted header rows) s db).1.0.status ≡ 200)
        × ((answer engine (accepted header rows) s db).0.db ≡ some after)
  unfolding answer ingested
  answer-accepted engine header rows s db before after d h = rw d (rw (h, answer) (refl, refl))

  module _ (wire : Wire) (engine : Engine) (host : Host) where
    -- What the agent's table says at a flush, the collector's database says after the post: when the
    -- document of the flush is posted and the database accepts the dump, the response is 200, the
    -- database is the accepted one, and each fact is that of the last row of the agent's dump about
    -- it, or the earlier one. The JSON library carries the document, it is UTF-8 of at most 256 MiB,
    -- the server's name and the run's id are valid, the number is at least 1, the collector reads the
    -- body without an error and has a healthy disk, the engine reads the run's id as that run and
    -- keeps the numbers that it stores, and the database is well-formed before.
    pub handle_post-flush :
        (ctx : FlushCtx) (m : Moment) (doc run : Text) (s : State) (before after : Store)
        → (flush platform to_string ctx m).1.ndjson ≡ some doc
        → CarriesHeader to_string wire (meta_of ctx m)
        → CarriesRows to_string wire (emit_rows platform m.engine)
        → CarriesFooter to_string wire (length (emit_rows platform m.engine))
        → wire.is_utf8 doc ≡ true
        → is_valid_server ctx.server ≡ true
        → is_valid_uuid ctx.run_id ≡ true
        → 1 ≤ ctx.dump_seq
        → length doc ≤ max_body
        → host.read_error ≡ none
        → IsHealthy host.disk
        → s.db ≡ some before
        → KeepsNumbers engine
        → IsWellFormed before
        → engine.uuid ctx.run_id ≡ ok run
        → ingest engine before
            (header_of to_string wire (meta_of ctx m))
            (map dump_row (emit_rows platform m.engine))
          ≡ ok (after, Db.accepted)
        → ((handle_post host wire engine doc s).1.0.status ≡ 200)
          × ((handle_post host wire engine doc s).0.db ≡ some after)
          × IsWellFormed after
          × ((k : FileKey) (r : Text) (day : ℤ)
              → fact after k r day
                ≡ last_write ctx.server run
                    (map dump_row (emit_rows platform m.engine))
                    k
                    r
                    day
                    (fact before k r day))
    handle_post-flush ctx m doc run s before after posted h c f utf8 server uuid seq fits read
          written db keeps well same ingest_ok =
        let rows = map dump_row (emit_rows platform m.engine) in
        let header = header_of to_string wire (meta_of ctx m) in
        let written_doc = flushed_document ctx m doc posted in
        let classified : classify wire doc ≡ accepted header rows =
          subst (λ d. classify wire d ≡ accepted header rows) written_doc
            (classify-document to_string wire (meta_of ctx m) (emit_rows platform m.engine) h c f
              (subst (λ d. wire.is_utf8 d ≡ true) (sym written_doc) utf8) server uuid seq) in
        let t : State = record s {
          archive = insert (place_of host.now_millis (classify wire doc)) doc s.archive;
        } in
        let answered : handle_post host wire engine doc s
            ≡ answer engine (accepted header rows) t s.db =
          handle_post_lem host wire engine doc s fits read written
          ∙ ap (λ d. answer engine d t s.db) classified in
        let done = answer-accepted engine header rows t s.db before after db ingest_ok in
        let facts = ingest-facts engine before after header rows run keeps well same ingest_ok in
        (
          ap (λ (r : State × (Reply × LogLine)). r.1.0.status) answered ∙ done.0,
          ap (λ (r : State × (Reply × LogLine)). r.0.db) answered ∙ done.1,
          facts.0,
          facts.1,
        )
