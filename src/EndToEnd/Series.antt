-- ===== src/EndToEnd/Series.antt =====
-- The flushes of one run of the agent, posted one after the other, of which the network may lose any.
use mathlib.Core.Path.{ap₂, subst}
use windows_fileserver_heatm.Prelude.{
  ℕ, ◌+◌, ◌%◌, ◌^◌, ◌≤◌, ◌<◌, ◌≡◌, refl, sym, ◌∙◌, ap, Option, none, some, List, [], ◌∷◌, ◌++◌,
  true, false, length, map, arith,
}
use windows_fileserver_heatm.Prelude.Int.{ℤ, pos, ◌≤ℤ◌, as_i32}
use windows_fileserver_heatm.Prelude.Map.{lookup}
use windows_fileserver_heatm.Prelude.Order.{nat_ord, list_ord}
use windows_fileserver_heatm.Prelude.Text.{Text}
use windows_fileserver_heatm.Agent.Platform.{Platform}
use windows_fileserver_heatm.Agent.Correlation.Emission.{emit_rows}
use windows_fileserver_heatm.Agent.Emit.{Serializer, document}
use windows_fileserver_heatm.Agent.Flusher.{FlushCtx, Moment, want_ndjson, flush}
use windows_fileserver_heatm.Collector.Archive.Files.{IsHealthy}
use windows_fileserver_heatm.Collector.Ingest.{
  Wire, Header, DumpRow, is_valid_server, is_valid_uuid,
}
use windows_fileserver_heatm.Collector.Db.{Store, RunRow, FileKey, Engine, already_applied}
use windows_fileserver_heatm.Collector.Db.Acceptance.{TakesCounts, IsStorable, ingest_accepts}
use windows_fileserver_heatm.Collector.Db.Files.{IsWellFormed, fact, last_write}
use windows_fileserver_heatm.Collector.Db.Facts.{KeepsNumbers}
use windows_fileserver_heatm.Collector.Db.Runs.{ingest-runs}
use windows_fileserver_heatm.Collector.Server.Keeping.{AdmitsAll}
use windows_fileserver_heatm.Collector.Server.Isolation.{IsForeign, serve-HasSameRun}
use windows_fileserver_heatm.Collector.Server.Startup.{serve}
use windows_fileserver_heatm.Collector.Server.{Request, Host, State, max_body, handle_post}
use windows_fileserver_heatm.EndToEnd.{
  CarriesHeader, CarriesRows, CarriesFooter, dump_row, header_of,
}
use windows_fileserver_heatm.EndToEnd.Delivery.{meta_of, handle_post-flush}

-- A flush: the requests that the collector answers before its post, the wake, and what the collector
-- meets if the post reaches it.
abbrev pub Attempt : Type 0
Attempt = List (Host × Request) × Moment × Option Host

-- The number is larger than what a run has.
abbrev pub NewTo : ℕ → Option RunRow → Type 0
NewTo seq none = Unit
NewTo seq (some r) = ¬ (pos seq ≤ℤ r.last_dump_seq)

NewTo-already_applied :
    (header : Header) (old : Option RunRow)
    → header.dump_seq < 2 ^ 31
    → NewTo header.dump_seq old
    → already_applied header old ≡ false
NewTo-already_applied header none small new = refl
NewTo-already_applied header (some r) small new = ground arith

module _ (platform : Platform) (to_string : Serializer) (wire : Wire) (engine : Engine) where
  abbrev pub post_doc : Host → Option Text → State → State × List ℕ
  post_doc host none s = (s, [])
  post_doc host (some doc) s =
      let (t, out) = handle_post host wire engine doc s in (t, out.0.status ∷ [])

  abbrev pub post_attempt : Option Host → Option Text → State → State × List ℕ
  post_attempt none doc s = (s, [])
  post_attempt (some host) doc s = post_doc host doc s

  -- The collector after the flushes, and the statuses of its responses to them.
  unfoldable pub post_all : FlushCtx → List Attempt → State → State × List ℕ
  post_all ctx [] s = (s, [])
  post_all ctx ((others, m, reached) ∷ ms) s =
      let (next, out) = flush platform to_string ctx m in
      let (t, status) = post_attempt reached out.ndjson (serve wire engine others s).0 in
      let (u, more) = post_all next ms t in (u, status ++ more)

  abbrev pub rows_at : Moment → List DumpRow
  rows_at m = map dump_row (emit_rows platform m.engine)

  -- The rows of the dumps that arrive, one dump after the other.
  abbrev pub delivered : List Attempt → List DumpRow
  delivered [] = []
  delivered ((others, m, none) ∷ ms) = delivered ms
  delivered ((others, m, some host) ∷ ms) = rows_at m ++ delivered ms

  abbrev pub all_ok : List Attempt → List ℕ
  all_ok [] = []
  all_ok ((others, m, none) ∷ ms) = all_ok ms
  all_ok ((others, m, some host) ∷ ms) = 200 ∷ all_ok ms

  -- The JSON library carries the dump, which has at most 256 MiB, the collector meets no error of
  -- input or output, and the dump is storable.
  pub record IsDeliverable (run : Text) (ctx : FlushCtx) (m : Moment) (host : Host) : Type 0 where
    pub header : CarriesHeader to_string wire (meta_of ctx m)
    pub rows : CarriesRows to_string wire (emit_rows platform m.engine)
    pub footer : CarriesFooter to_string wire (length (emit_rows platform m.engine))
    pub utf8 :
        wire.is_utf8 (document to_string (meta_of ctx m) (emit_rows platform m.engine)) ≡ true
    pub fits : length (document to_string (meta_of ctx m) (emit_rows platform m.engine)) ≤ max_body
    pub read : host.read_error ≡ none
    pub healthy : IsHealthy host.disk
    pub storable : IsStorable engine (header_of to_string wire (meta_of ctx m)) (rows_at m) run

  -- Every dump that arrives is deliverable, and no other request posts a dump of the run.
  abbrev pub AreDeliverable : Text → FlushCtx → List Attempt → Type 0
  AreDeliverable run ctx [] = Unit
  AreDeliverable run ctx ((others, m, none) ∷ ms) =
      AdmitsAll wire (IsForeign engine run) others
      × AreDeliverable run (flush platform to_string ctx m).0 ms
  AreDeliverable run ctx ((others, m, some host) ∷ ms) =
      AdmitsAll wire (IsForeign engine run) others
      × IsDeliverable run ctx m host
      × AreDeliverable run (flush platform to_string ctx m).0 ms

  -- What the flushes have done to the database.
  pub record Delivered (run server : Text) (ms : List Attempt) (before : Store) (r : State × List ℕ)
      : Type 0 where
    pub after : Store
    pub stored : r.0.db ≡ some after
    pub answered : r.1 ≡ all_ok ms
    pub well_formed : IsWellFormed after
    pub facts :
        (k : FileKey) (day : ℤ)
        → fact after k run day
          ≡ last_write server run (delivered ms) k run day (fact before k run day)

  flush-ndjson :
      (ctx : FlushCtx) (m : Moment)
      → want_ndjson ctx ≡ true
      → (flush platform to_string ctx m).1.ndjson
        ≡ some (document to_string (meta_of ctx m) (emit_rows platform m.engine))
  unfolding flush
  flush-ndjson ctx m h = rw h refl

  pub last_write-append :
      (server run : Text) (rows more : List DumpRow) (k : FileKey) (q : Text) (day : ℤ)
      (b : Option (ℕ × ℕ))
      → last_write server run (rows ++ more) k q day b
        ≡ last_write server run more k q day (last_write server run rows k q day b)
  unfolding last_write
  last_write-append server run [] more k q day b = refl
  last_write-append server run (row ∷ rows) more k q day b =
      last_write-append server run rows more k q day _

  -- The context of a run that posts to a collector which accepts its name and its id.
  pub record IsPosting (ctx : FlushCtx) : Type 0 where
    pub collector : ctx.collector ≡ true
    pub server : is_valid_server ctx.server ≡ true
    pub uuid : is_valid_uuid ctx.run_id ≡ true

  wanted : (ctx : FlushCtx) → ctx.collector ≡ true → want_ndjson ctx ≡ true
  wanted ctx h = ground arith

  -- What a post that arrives has done.
  record Arrived (run : Text) (ctx : FlushCtx) (m : Moment) (before : Store) (r : State × List ℕ)
      : Type 0 where
    after : Store
    stored : r.0.db ≡ some after
    answered : r.1 ≡ 200 ∷ []
    well_formed : IsWellFormed after
    facts :
        (k : FileKey) (q : Text) (day : ℤ)
        → fact after k q day ≡ last_write ctx.server run (rows_at m) k q day (fact before k q day)
    newer : NewTo (ctx.dump_seq + 1) (lookup run after.runs)

  newer_next :
      (seq : ℕ) (new : RunRow) (o : Option RunRow)
      → seq < 2 ^ 31
      → o ≡ some new
      → new.last_dump_seq ≡ as_i32 seq
      → NewTo (seq + 1) o
  newer_next seq new none small e h = tt
  newer_next seq new (some r) small e h =
      let same : r ≡ new = cc in λ le. ground (arith, ap (λ (x : RunRow). x.last_dump_seq) same)

  newer_still :
      (seq : ℕ) (o : Option RunRow) → seq < 2 ^ 31 → NewTo seq o → NewTo ((seq + 1) % 2 ^ 32) o
  newer_still seq none small new = tt
  newer_still seq (some r) small new = λ le. new (omega arith)

  module _ (run : Text) (takes : TakesCounts engine) (keeps : KeepsNumbers engine) where
    -- One flush whose post arrives.
    arrived :
        (ctx : FlushCtx) (m : Moment) (host : Host) (s : State) (before : Store)
        → IsPosting ctx
        → 1 ≤ ctx.dump_seq
        → ctx.dump_seq < 2 ^ 31
        → IsDeliverable run ctx m host
        → s.db ≡ some before
        → IsWellFormed before
        → NewTo ctx.dump_seq (lookup run before.runs)
        → Arrived run ctx m before
            (post_attempt (some host) (flush platform to_string ctx m).1.ndjson s)
    arrived ctx m host s before p seq small d db well new =
        let header = header_of to_string wire (meta_of ctx m) in
        let doc = document to_string (meta_of ctx m) (emit_rows platform m.engine) in
        let written = flush-ndjson ctx m (wanted ctx p.collector) in
        let (after, ingested) =
          ingest_accepts engine before header (rows_at m) run takes d.storable
            (NewTo-already_applied header (lookup run before.runs) small new) in
        let done =
          handle_post-flush platform to_string wire engine host ctx m doc run s before after written
            d.header d.rows d.footer d.utf8 p.server p.uuid seq d.fits d.read d.healthy db keeps
            well d.storable.run_eq ingested in
        let runs =
          ingest-runs engine before after header (rows_at m) run d.storable.run_eq ingested in
        rw written (record {
          after = after;
          stored = done.1;
          answered = ap (λ n. n ∷ []) done.0;
          well_formed = done.2;
          facts = done.3;
          newer =
              newer_next ctx.dump_seq runs.new (lookup run after.runs) small runs.stored runs.seq;
        })

    IsPosting-flush :
        (ctx : FlushCtx) (m : Moment) → IsPosting ctx → IsPosting (flush platform to_string ctx m).0
    unfolding flush
    IsPosting-flush ctx m p = record { collector = p.collector; server = p.server; uuid = p.uuid }

    -- Losses do not stop a run: however many of its posts are lost, and whatever other requests the
    -- collector answers between them, each post that arrives is answered with 200, the tables stay
    -- consistent, and every fact of the run is that of the last row about it among the dumps that
    -- arrived, or the earlier one. No other request posts a dump of this run; the agent posts to a
    -- collector that accepts its name and its run's id; the dumps that arrive are deliverable; their
    -- numbers start at 1 or later, stay below 2 ^ 31, and are larger than the run's number in the
    -- database, if it has one; and the engine keeps the numbers that it stores and takes counts below
    -- 2 ^ 31.
    pub post_all_delivers :
        (ctx : FlushCtx) (ms : List Attempt) (s : State) (before : Store)
        → IsPosting ctx
        → 1 ≤ ctx.dump_seq
        → ctx.dump_seq + length ms ≤ 2 ^ 31
        → AreDeliverable run ctx ms
        → s.db ≡ some before
        → IsWellFormed before
        → NewTo ctx.dump_seq (lookup run before.runs)
        → Delivered run ctx.server ms before (post_all ctx ms s)
    unfolding post_all last_write flush
    post_all_delivers ctx [] s before p seq small d db well new = record {
      after = before;
      stored = db;
      answered = refl;
      well_formed = well;
      facts = λ k day. refl;
    }
    post_all_delivers ctx ((others, m, none) ∷ ms) s before p seq small d db well new =
        let (mid, mid_db, same) =
          serve-HasSameRun wire engine run keeps others s before d.0 db well in
        let rest =
          post_all_delivers (flush platform to_string ctx m).0 ms (serve wire engine others s).0 mid
            (IsPosting-flush ctx m p) (omega arith) (omega arith) d.1 mid_db same.well_formed
            (subst (NewTo ((ctx.dump_seq + 1) % 2 ^ 32)) (sym same.row)
              (newer_still ctx.dump_seq (lookup run before.runs) (omega arith) new)) in
        record {
          after = rest.after;
          stored = rest.stored;
          answered = rest.answered;
          well_formed = rest.well_formed;
          facts = λ k day.
              rest.facts k day
              ∙ ap (λ b. last_write ctx.server run (delivered ms) k run day b) (same.facts k day);
        }
    post_all_delivers ctx ((others, m, some host) ∷ ms) s before p seq small d db well new =
        let (mid, mid_db, same) =
          serve-HasSameRun wire engine run keeps others s before d.0 db well in
        let reached = (serve wire engine others s).0 in
        let next = (flush platform to_string ctx m).0 in
        let first = post_attempt (some host) (flush platform to_string ctx m).1.ndjson reached in
        let a =
          arrived ctx m host reached mid p seq (omega arith) d.1 mid_db same.well_formed
            (subst (NewTo ctx.dump_seq) (sym same.row) new) in
        let rest =
          post_all_delivers next ms first.0 a.after (IsPosting-flush ctx m p) (omega arith)
            (omega arith) d.2 a.stored a.well_formed
            (subst (λ n. NewTo n (lookup run a.after.runs)) (omega arith) a.newer) in
        record {
          after = rest.after;
          stored = rest.stored;
          answered = ap₂ (λ xs ys. xs ++ ys) a.answered rest.answered;
          well_formed = rest.well_formed;
          facts = λ k day.
              rest.facts k day
              ∙ ap (λ b. last_write ctx.server run (delivered ms) k run day b)
                  (a.facts k run day
                    ∙ ap (λ b. last_write ctx.server run (rows_at m) k run day b)
                        (same.facts k day))
              ∙ sym (
                  last_write-append ctx.server run (rows_at m) (delivered ms) k run day
                    (fact before k run day));
        }
