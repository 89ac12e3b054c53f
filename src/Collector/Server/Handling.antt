-- ===== src/Collector/Server/Handling.antt =====
-- What a request does to the archive and the database, and what is answered.
use windows_fileserver_heatm.Prelude.{
  ℕ, zero, suc, ◌+◌, ◌≤◌, ◌≡◌, ◌≢◌, refl, ◌∙◌, ap, Option, none, some, [], ◌∷◌, Bool, true, false,
  length, take, ltb, arith,
}
use windows_fileserver_heatm.Prelude.Order.{nat_ord, list_ord}
use windows_fileserver_heatm.Prelude.Map.{Map, lookup, insert, insert_same, insert_other}
use windows_fileserver_heatm.Prelude.Text.{Text}
use windows_fileserver_heatm.Prelude.Result.{Result, ok, err}
use windows_fileserver_heatm.Collector.Ingest.{
  Disposition, malformed, rejected, accepted, Wire, classify, archive_rel_path,
}
use windows_fileserver_heatm.Collector.Archive.{Disk, Written}
use windows_fileserver_heatm.Collector.Archive.Files.{
  IsHealthy, write_verbatim-healthy, write_malformed-healthy,
}
use windows_fileserver_heatm.Collector.Archive.Places.{place_of}
use windows_fileserver_heatm.Collector.Db
use windows_fileserver_heatm.Collector.Db.{Store, Engine, IngestOutcome, IngestError, ingest}
use windows_fileserver_heatm.Collector.Server.{
  Method, get, post, other_method, Request, Reply, LogLine, get_line, ingest_line, State, Host,
  max_body, archived, after_archive, posted, routed, handle_get, ingested, answer,
  archive_and_answer, handle_post, handle,
}

abbrev Outcome : Type 0
Outcome = State × (Reply × LogLine)

-- The status that a log line shows.
abbrev pub logged_status : LogLine → ℕ
logged_status (get_line path status) = status
logged_status (ingest_line server run seq rows status reason) = status

-- The log tells the status, and the database changes with a 200 only.
pub record IsSound (s : State) (r : State × (Reply × LogLine)) : Type 0 where
  pub logged : logged_status r.1.1 ≡ r.1.0.status
  pub db_kept : r.1.0.status ≢ 200 → r.0.db ≡ s.db

ingested-IsSound :
    (d : Disposition) (n : Text) (s t : State) (r : Result IngestError (Store × IngestOutcome))
    → s.db ≡ t.db
    → IsSound t (ingested d n s r)
unfolding ingested
ingested-IsSound d n s t (ok (db, Db.accepted)) h = record {
  logged = refl;
  db_kept = λ away. absurd (away refl);
}
ingested-IsSound d n s t (ok (db, Db.dedupe_noop)) h = record {
  logged = refl;
  db_kept = λ away. absurd (away refl);
}
ingested-IsSound d n s t (err e) h = record { logged = refl; db_kept = λ _. h }

answer-IsSound :
    (engine : Engine) (d : Disposition) (s t : State) (db : Option Store)
    → s.db ≡ t.db
    → IsSound t (answer engine d s db)
unfolding answer
answer-IsSound engine (malformed reason) s t db h = record { logged = refl; db_kept = λ _. h }
answer-IsSound engine (rejected header reason) s t db h = record { logged = refl; db_kept = λ _. h }
answer-IsSound engine (accepted header rows) s t none h = record { logged = refl; db_kept = λ _. h }
answer-IsSound engine (accepted header rows) s t (some db) h =
    ingested-IsSound (accepted header rows) _ s t (ingest engine db header rows) h

after_archive-IsSound :
    (engine : Engine) (d : Disposition) (w : Written) (s : State)
    → IsSound s (after_archive engine d w s)
unfolding after_archive
after_archive-IsSound engine d (files, some e) s = record { logged = refl; db_kept = λ _. refl }
after_archive-IsSound engine d (files, none) s = answer-IsSound engine d _ s s.db refl

ingested_archive :
    (d : Disposition) (n : Text) (t : State) (r : Result IngestError (Store × IngestOutcome))
    → (ingested d n t r).0.archive ≡ t.archive
unfolding ingested
ingested_archive d n t (ok (db, Db.accepted)) = refl
ingested_archive d n t (ok (db, Db.dedupe_noop)) = refl
ingested_archive d n t (err e) = refl

pub answer_archive :
    (engine : Engine) (d : Disposition) (t : State) (db : Option Store)
    → (answer engine d t db).0.archive ≡ t.archive
unfolding answer
answer_archive engine (malformed reason) t db = refl
answer_archive engine (rejected header reason) t db = refl
answer_archive engine (accepted header rows) t none = refl
answer_archive engine (accepted header rows) t (some db) =
    ingested_archive (accepted header rows) _ t (ingest engine db header rows)

take_whole : (n : ℕ) (body : Text) → length body ≤ n → take n body ≡ body
take_whole zero [] h = refl
take_whole zero (c ∷ body) h = absurd (omega arith)
take_whole (suc n) [] h = refl
take_whole (suc n) (c ∷ body) h = ap (λ t. c ∷ t) (take_whole n body (omega arith))

not_longer : (limit n : ℕ) → n ≤ limit → ltb limit n ≡ false
not_longer limit n h = ground arith

-- With a healthy disk, the body is in its place.
pub archived-healthy :
    (disk : Disk)
    → IsHealthy disk
    → (millis : ℕ) (d : Disposition) (body : Text) (files : Map Text Text)
    → archived disk millis d body files ≡ (insert (place_of millis d) body files, none)
unfolding archived archive_rel_path
archived-healthy disk healthy millis (malformed reason) body files =
    write_malformed-healthy disk body files healthy millis
archived-healthy disk healthy millis (rejected header reason) body files =
    write_verbatim-healthy disk body files healthy _
archived-healthy disk healthy millis (accepted header rows) body files =
    write_verbatim-healthy disk body files healthy _

module _ (host : Host) (wire : Wire) (engine : Engine) where
  posted-IsSound :
      (body : Text) (failed : Option Text) (over : Bool) (s : State)
      → IsSound s (posted host wire engine body failed over s)
  unfolding posted
  posted-IsSound body (some e) over s = record { logged = refl; db_kept = λ _. refl }
  posted-IsSound body none true s = record { logged = refl; db_kept = λ _. refl }
  posted-IsSound body none false s =
      unfold archive_and_answer in
      after_archive-IsSound engine (classify wire body)
        (archived host.disk host.now_millis (classify wire body) body s.archive) s

  routed-IsSound :
      (request : Request) (method : Method) (is_ingest : Bool) (s : State)
      → IsSound s (routed host wire engine request method is_ingest s)
  unfolding routed handle_get handle_post
  routed-IsSound request get _ s = record { logged = refl; db_kept = λ _. refl }
  routed-IsSound request post true s = posted-IsSound _ host.read_error _ s
  routed-IsSound request post false s = record { logged = refl; db_kept = λ _. refl }
  routed-IsSound request other_method _ s = record { logged = refl; db_kept = λ _. refl }

  -- Every request is logged with the status of its response, and the database is as before unless
  -- that status is 200.
  pub handle-IsSound :
      (request : Request) (s : State) → IsSound s (handle host wire engine request s)
  unfolding handle
  handle-IsSound request s = routed-IsSound request request.method _ s

  -- A body that is read whole is archived, and then answered.
  pub handle_post_lem :
      (sent : Text) (s : State)
      → length sent ≤ max_body
      → host.read_error ≡ none
      → IsHealthy host.disk
      → handle_post host wire engine sent s
        ≡ answer engine
            (classify wire sent)
            (record s {
              archive = insert (place_of host.now_millis (classify wire sent)) sent s.archive;
            })
            s.db
  unfolding handle_post posted archive_and_answer after_archive
  handle_post_lem sent s fits read healthy =
      let whole = take_whole (max_body + 1) sent (omega arith) in
      let short : ltb max_body (length sent) ≡ false = not_longer max_body (length sent) fits in
      rw (whole, handle_post)
        (rw (short, posted)
          (rw (read, posted)
            (ap (λ (w : Written). after_archive engine (classify wire sent) w s)
              (archived-healthy host.disk healthy host.now_millis (classify wire sent) sent
                s.archive))))

  -- A posted body of at most 256 MiB that is read without an error is in the archive of a healthy disk,
  -- byte for byte, at its place in the layout, whether the dump is accepted or not; and no
  -- other archived file has changed.
  pub handle_post-archived :
      (sent : Text) (s : State)
      → length sent ≤ max_body
      → host.read_error ≡ none
      → IsHealthy host.disk
      → let path = place_of host.now_millis (classify wire sent) in
        let after = (handle_post host wire engine sent s).0.archive in
        (lookup path after ≡ some sent)
        × ((p : Text) → path ≢ p → lookup p after ≡ lookup p s.archive)
  handle_post-archived sent s fits read healthy =
      let path = place_of host.now_millis (classify wire sent) in
      let t : State = record s { archive = insert path sent s.archive } in
      let same : (handle_post host wire engine sent s).0.archive ≡ insert path sent s.archive =
        ap (λ (r : Outcome). r.0.archive) (handle_post_lem sent s fits read healthy)
        ∙ answer_archive engine (classify wire sent) t s.db in
      (
        ap (lookup path) same ∙ insert_same path sent s.archive,
        λ p away. ap (lookup p) same ∙ insert_other path p sent s.archive away,
      )
