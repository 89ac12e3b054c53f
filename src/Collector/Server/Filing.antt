-- ===== src/Collector/Server/Filing.antt =====
-- What the archive holds after any requests: which files a request can change, and where a body is
-- filed.
use Prim.Native.Nat.{Ordering}
use Prim.Native.Nat.Ordering.{lt, eq, gt}
use mathlib.Core.Path.{subst}
use windows_fileserver_heatm.Prelude.{
  ℕ, ◌+◌, ◌≡◌, ◌≢◌, refl, sym, ◌∙◌, ap, Option, none, some, List, [], ◌∷◌, Bool, true, false, take,
}
use windows_fileserver_heatm.Prelude.Order.{list_ord, nat_ord}
use windows_fileserver_heatm.Prelude.Lists.{All}
use windows_fileserver_heatm.Prelude.Map.{Map, lookup, modify, insert}
use windows_fileserver_heatm.Prelude.Text.{Text}
use windows_fileserver_heatm.Collector.Archive.{Disk, Written}
use windows_fileserver_heatm.Collector.Archive.Files.{
  IsHealthy, write_malformed_elsewhere, write_verbatim_elsewhere,
}
use windows_fileserver_heatm.Collector.Archive.Places.{dump_place, place_of}
use windows_fileserver_heatm.Collector.Db.{Engine}
use windows_fileserver_heatm.Collector.Ingest.{
  Header, Disposition, malformed, rejected, accepted, Wire, classify, validate_naming,
  archive_rel_path,
}
use windows_fileserver_heatm.Collector.Ingest.Distinct.{
  SameFile, archive_rel_path_iff, HasValidHeader, classify-HasValidHeader, malformed_path_apart,
}
use windows_fileserver_heatm.Prelude.Result.{ok}
use windows_fileserver_heatm.Collector.Server.{
  Host, Method, get, post, other_method, Request, State, max_body, archived, after_archive,
  archive_and_answer, posted, handle_post, handle_get, routed, handle,
}
use windows_fileserver_heatm.Collector.Server.Handling.{answer_archive, archived-healthy}
use windows_fileserver_heatm.Collector.Server.Startup.{serve}

after_archive_files :
    (engine : Engine) (d : Disposition) (w : Written) (s : State)
    → (after_archive engine d w s).0.archive ≡ w.0
unfolding after_archive
after_archive_files engine d (files, some e) s = refl
after_archive_files engine d (files, none) s = answer_archive engine d _ s.db

-- A file that is not at the place of the body stays, whatever the write does.
archived_elsewhere :
    (disk : Disk) (millis : ℕ) (d : Disposition) (body p : Text) (files : Map Text Text)
    → place_of millis d ≢ p
    → lookup p (archived disk millis d body files).0 ≡ lookup p files
unfolding archived archive_rel_path
archived_elsewhere disk millis (malformed reason) body p files away =
    write_malformed_elsewhere disk body files p millis away
archived_elsewhere disk millis (rejected header reason) body p files away =
    write_verbatim_elsewhere disk body files p _ away
archived_elsewhere disk millis (accepted header rows) body p files away =
    write_verbatim_elsewhere disk body files p _ away

-- Each file of the archive is at the place of its own bytes, at some time.
abbrev pub AreFiled : Wire → Map Text Text → Type 0
AreFiled wire files =
    All {A = Text × Text} (λ file. (millis : ℕ) × (place_of millis (classify wire file.1) ≡ file.0))
      files

All-insert :
    (P : Text × Text → Type 0) (k v : Text) (m : Map Text Text)
    → P (k, v)
    → All P m
    → All P (insert k v m)
unfolding insert modify
All-insert P k v [] p h = (p, tt)
All-insert P k v ((j, w) ∷ m) p h = by_order (list_ord.cmp k j) refl (All-insert P k v m p h.1)
  where
    by_order :
        (r : Ordering)
        → list_ord.cmp k j ≡ r
        → All P (modify k v (λ _. v) m)
        → All P (elim r [
          | lt ↦ (k, v) ∷ (j, w) ∷ m
          | eq ↦ (j, v) ∷ m
          | gt ↦ (j, w) ∷ modify k v (λ _. v) m
        ])
    by_order lt e rest = (p, h)
    by_order eq e rest = (subst (λ path. P (path, v)) (list_ord.eq_of_cmp k j e) p, h.1)
    by_order gt e rest = (h.0, rest)

-- A body that is malformed, or whose header does not name the same file.
abbrev pub IsOther : Header → Disposition → Type 0
IsOther h (malformed reason) = Unit
IsOther h (rejected header reason) = ¬ SameFile header h
IsOther h (accepted header rows) = ¬ SameFile header h

module _ (wire : Wire) (engine : Engine) where
  -- A body that is written without an error is filed where it belongs, and the other files stay.
  posted-AreFiled :
      (host : Host) (body : Text) (e : Option Text) (over : Bool) (s : State)
      → IsHealthy host.disk
      → AreFiled wire s.archive
      → AreFiled wire (posted host wire engine body e over s).0.archive
  unfolding posted
  posted-AreFiled host body (some e) over s healthy h = h
  posted-AreFiled host body none true s healthy h = h
  posted-AreFiled host body none false s healthy h =
      let d = classify wire body in
      unfold archive_and_answer in
      subst (AreFiled wire)
        (sym (
          after_archive_files engine d (archived host.disk host.now_millis d body s.archive) s
          ∙ ap (λ (w : Written). w.0)
              (archived-healthy host.disk healthy host.now_millis d body s.archive)))
        (All-insert _ _ body s.archive (host.now_millis, refl) h)

  routed-AreFiled :
      (host : Host) (request : Request) (method : Method) (is_ingest : Bool) (s : State)
      → IsHealthy host.disk
      → AreFiled wire s.archive
      → AreFiled wire (routed host wire engine request method is_ingest s).0.archive
  unfolding routed handle_get handle_post
  routed-AreFiled host request get _ s healthy h = h
  routed-AreFiled host request post true s healthy h =
      posted-AreFiled host _ host.read_error _ s healthy h
  routed-AreFiled host request post false s healthy h = h
  routed-AreFiled host request other_method _ s healthy h = h

  -- Whatever requests are answered, by hosts whose disk gives no error, each file of the archive
  -- stands at the place of its own bytes: that of the server, the run and the number in its own
  -- header, or the one for malformed bodies at some time.
  pub serve-AreFiled :
      (requests : List (Host × Request)) (s : State)
      → All (λ (r : Host × Request). IsHealthy r.0.disk) requests
      → AreFiled wire s.archive
      → AreFiled wire (serve wire engine requests s).0.archive
  unfolding serve handle
  serve-AreFiled [] s healthy h = h
  serve-AreFiled ((host, request) ∷ requests) s healthy h =
      serve-AreFiled requests _ healthy.1
        (routed-AreFiled host request request.method _ s healthy.0 h)

  -- Where the bytes that a request sends would be filed.
  abbrev pub filed_at : Host × Request → Text
  filed_at (host, request) =
      place_of host.now_millis (classify wire (take (max_body + 1) request.body))

  posted_elsewhere :
      (host : Host) (body p : Text) (e : Option Text) (over : Bool) (s : State)
      → place_of host.now_millis (classify wire body) ≢ p
      → lookup p (posted host wire engine body e over s).0.archive ≡ lookup p s.archive
  unfolding posted
  posted_elsewhere host body p (some e) over s away = refl
  posted_elsewhere host body p none true s away = refl
  posted_elsewhere host body p none false s away =
      let d = classify wire body in
      unfold archive_and_answer in
      ap (lookup p)
        (after_archive_files engine d (archived host.disk host.now_millis d body s.archive) s)
      ∙ archived_elsewhere host.disk host.now_millis d body p s.archive away

  routed_elsewhere :
      (host : Host) (request : Request) (p : Text) (method : Method) (is_ingest : Bool) (s : State)
      → filed_at (host, request) ≢ p
      → lookup p (routed host wire engine request method is_ingest s).0.archive ≡ lookup p s.archive
  unfolding routed handle_get handle_post
  routed_elsewhere host request p get _ s away = refl
  routed_elsewhere host request p post true s away =
      posted_elsewhere host _ p host.read_error _ s away
  routed_elsewhere host request p post false s away = refl
  routed_elsewhere host request p other_method _ s away = refl

  -- A file of the archive stays as it is through any requests whose bytes are filed elsewhere, also
  -- where writing them fails half-way.
  pub serve_elsewhere :
      (requests : List (Host × Request)) (s : State) (p : Text)
      → All (λ (r : Host × Request). filed_at r ≢ p) requests
      → lookup p (serve wire engine requests s).0.archive ≡ lookup p s.archive
  unfolding serve handle
  serve_elsewhere [] s p away = refl
  serve_elsewhere ((host, request) ∷ requests) s p away =
      serve_elsewhere requests _ p away.1
      ∙ routed_elsewhere host request p request.method _ s away.0

  filed_elsewhere :
      (h : Header) (millis : ℕ) (d : Disposition)
      → validate_naming wire h ≡ ok tt
      → HasValidHeader wire d
      → IsOther h d
      → place_of millis d ≢ dump_place h
  unfolding archive_rel_path
  filed_elsewhere h millis (malformed reason) v w other e = malformed_path_apart wire millis h v e
  filed_elsewhere h millis (rejected header reason) v w other e =
      other ((archive_rel_path_iff wire header h w v).0 e)
  filed_elsewhere h millis (accepted header rows) v w other e =
      other ((archive_rel_path_iff wire header h w v).0 e)

  others_elsewhere :
      (h : Header) (requests : List (Host × Request))
      → validate_naming wire h ≡ ok tt
      → All
          (λ (r : Host × Request). IsOther h (classify wire (take (max_body + 1) r.1.body)))
          requests
      → All (λ (r : Host × Request). filed_at r ≢ dump_place h) requests
  others_elsewhere h [] v others = tt
  others_elsewhere h ((host, request) ∷ requests) v others = (
    filed_elsewhere h host.now_millis _ v
        (classify-HasValidHeader wire (take (max_body + 1) request.body)) others.0,
    others_elsewhere h requests v others.1,
  )

  -- The archived dump of a valid header stays as it is, byte for byte, through any requests that post
  -- no dump of the same server with the same first eight bytes of the run's id and the same number,
  -- also where the file system fails and leaves a file half written.
  pub serve-archived :
      (requests : List (Host × Request)) (s : State) (h : Header)
      → validate_naming wire h ≡ ok tt
      → All
          (λ (r : Host × Request). IsOther h (classify wire (take (max_body + 1) r.1.body)))
          requests
      → let path = dump_place h in
        lookup path (serve wire engine requests s).0.archive ≡ lookup path s.archive
  serve-archived requests s h v others =
      serve_elsewhere requests s _ (others_elsewhere h requests v others)
