-- ===== src/Agent/Flusher/Sinks.antt =====
-- agent/src/etw.rs: where a dump goes, the directory of --emit-dir and the collector, and what the
-- flusher says of it on stderr.
use windows_fileserver_heatm.Prelude.{ℕ, Option, none, some, List, [], ◌∷◌, ◌++◌, Bool, true, false}
use windows_fileserver_heatm.Prelude.Result.{Result, ok, err}
use windows_fileserver_heatm.Prelude.Text.{Text, text, cat, decimal}
use windows_fileserver_heatm.Agent.Platform.{Platform}
use windows_fileserver_heatm.Agent.Emit.{Serializer}
use windows_fileserver_heatm.Agent.Flusher.{FlushCtx, Flushed, Moment, emit_file_name, run_flusher}

-- The endpoint, with the timeouts of its ureq agent in seconds.
pub record Collector : Type 0 where
  pub timeout_connect : ℕ
  pub timeout_global : ℕ
  pub url : Text

abbrev pub new_collector : Text → Collector
new_collector url = record { timeout_connect = 10; timeout_global = 10; url = url }

-- What the flusher meets: the error of making a directory, a path joined to a name, the error of
-- writing a file, the status or the error of a post, and the variable COMPUTERNAME.
pub record Sinks : Type 0 where
  pub create_dir_all : Text → Option Text
  pub join : Text → Text → Text
  pub write : Text → Text → Option Text
  pub post : Collector → Text → Result Text ℕ
  pub computer_name : Option Text

abbrev pub server_name : Platform → Option Text → Text
server_name platform none = platform.to_lowercase []
server_name platform (some name) = platform.to_lowercase name

abbrev pub is_given : {A : Type 0} → Option A → Bool
is_given none = false
is_given (some a) = true

module _ (sinks : Sinks) where
  -- The context that the thread starts with.
  abbrev pub start_ctx : Platform → Text → List Text → Option Text → Option Text → FlushCtx
  start_ctx platform run_id walked_shares emit_dir collector = record {
    server = server_name platform sinks.computer_name;
    run_id = run_id;
    walked_shares = walked_shares;
    emit_dir = is_given emit_dir;
    collector = is_given collector;
    dump_seq = 1;
  }

  abbrev pub failed_to_create : Text → Option Text → List Text
  failed_to_create dir none = []
  failed_to_create dir (some e) =
      cat (text "emit: cannot create --emit-dir " ∷ dir ∷ text ": " ∷ e ∷ []) ∷ []

  unfoldable pub create_emit_dir : Option Text → List Text
  create_emit_dir none = []
  create_emit_dir (some dir) = failed_to_create dir (sinks.create_dir_all dir)

  abbrev pub failed_to_write : Text → Option Text → List Text
  failed_to_write path none = []
  failed_to_write path (some e) =
      cat (text "emit: failed to write " ∷ path ∷ text ": " ∷ e ∷ []) ∷ []

  unfoldable pub write_emit_dir : Option Text → Text → ℕ → Text → List Text
  write_emit_dir none run_id dump_seq doc = []
  write_emit_dir (some dir) run_id dump_seq doc =
      let path = sinks.join dir (emit_file_name run_id dump_seq) in
      failed_to_write path (sinks.write path doc)

  abbrev pub posted_line : ℕ → Result Text ℕ → Text
  posted_line dump_seq (ok status) =
      cat (text "emit: POST dump_seq=" ∷ decimal dump_seq ∷ text " -> " ∷ decimal status ∷ [])
  posted_line dump_seq (err e) =
      cat (text "emit: POST dump_seq=" ∷ decimal dump_seq ∷ text " failed: " ∷ e ∷ [])

  unfoldable pub post_collector : Option Collector → ℕ → Text → List Text
  post_collector none dump_seq doc = []
  post_collector (some c) dump_seq doc = posted_line dump_seq (sinks.post c doc) ∷ []

  -- The end of a flush: the document, if there is one, goes to both sinks.
  abbrev pub sent_doc : Option Text → Option Collector → Text → ℕ → Option Text → List Text
  sent_doc emit_dir collector run_id dump_seq none = []
  sent_doc emit_dir collector run_id dump_seq (some doc) =
      write_emit_dir emit_dir run_id dump_seq doc ++ post_collector collector dump_seq doc

  -- The lines of the flushes, one flush after the other.
  unfoldable pub sent_all : Option Text → Option Collector → Text → List Flushed → List Text
  sent_all emit_dir collector run_id [] = []
  sent_all emit_dir collector run_id (f ∷ fs) =
      sent_doc emit_dir collector run_id f.seq f.ndjson ++ sent_all emit_dir collector run_id fs

  -- The lines of the thread: of the directory that it makes first, and then of its flushes.
  unfoldable pub flusher_lines :
      Platform → Serializer → Option Text → Option Collector → FlushCtx → List Moment → List Text
  flusher_lines platform to_string emit_dir collector ctx ms =
      create_emit_dir emit_dir
      ++ sent_all emit_dir collector ctx.run_id (run_flusher platform to_string ctx ms)
