-- ===== src/Agent/Flusher.antt =====
-- agent/src/etw.rs: the flusher thread and its numbering of the dumps.
pub mod Numbering
pub mod Sinks
use windows_fileserver_heatm.Prelude.{
  ℕ, ◌+◌, ◌%◌, ◌^◌, Option, none, some, List, [], ◌∷◌, Bool, true, false, ◌||◌, if◌then◌else◌, take,
}
use windows_fileserver_heatm.Prelude.Text.{Text, text, cat, decimal}
use windows_fileserver_heatm.Agent.Platform.{Platform}
use windows_fileserver_heatm.Agent.Correlation.{CorrelationEngine}
use windows_fileserver_heatm.Agent.Correlation.Emission.{resolved_table, emit_rows}
use windows_fileserver_heatm.Agent.Emit.{Meta, Serializer, document}

pub data FlushMsg : Type 0 where
  flush_now stop : FlushMsg

-- What `recv_timeout` returns: a message, or the end of the interval, or that the sender is gone.
pub data Wake : Type 0 where
  received : FlushMsg → Wake
  timeout disconnected : Wake

-- Does the loop go on after this wake?
abbrev pub goes_on : Wake → Bool
goes_on (received flush_now) = true
goes_on timeout = true
goes_on (received stop) = false
goes_on disconnected = false

-- A wake of the thread, with the table as the lock shows it then, and the clock's text.
pub record Moment : Type 0 where
  pub wake : Wake
  pub engine : CorrelationEngine
  pub rfc3339_now : Text

-- The fields that the thread owns; `emit_dir` and `collector` tell whether the sink is configured.
pub record FlushCtx : Type 0 where
  pub server : Text
  pub run_id : Text
  pub walked_shares : List Text
  pub emit_dir : Bool
  pub collector : Bool
  pub dump_seq : ℕ

-- What one flush prints, the document of the sinks, the file that it is written to, and whether it is
-- posted.
pub record Flushed : Type 0 where
  pub console : Text
  pub ndjson : Option Text
  pub file : Option Text
  pub post : Bool
  pub seq : ℕ

abbrev pub want_ndjson : FlushCtx → Bool
want_ndjson ctx = ctx.emit_dir || ctx.collector

-- The name of a dump below `--emit-dir`.
abbrev pub emit_file_name : Text → ℕ → Text
emit_file_name run_id seq = cat (take 8 run_id ∷ text "-" ∷ decimal seq ∷ text ".ndjson" ∷ [])

module _ (platform : Platform) (to_string : Serializer) where
  unfoldable pub flush : FlushCtx → Moment → FlushCtx × Flushed
  flush ctx m =
      let emitted_at : Text = if want_ndjson ctx then m.rfc3339_now else [] in
      let meta : Meta = record {
        server = ctx.server;
        run_id = ctx.run_id;
        dump_seq = ctx.dump_seq;
        emitted_at = emitted_at;
        walked_shares = ctx.walked_shares;
      } in
      (
        record ctx { dump_seq = (ctx.dump_seq + 1) % 2 ^ 32 },
        record {
          console = resolved_table platform m.engine;
          ndjson =
              if want_ndjson ctx
              then some (document to_string meta (emit_rows platform m.engine))
              else none;
          file = if ctx.emit_dir then some (emit_file_name ctx.run_id ctx.dump_seq) else none;
          post = ctx.collector;
          seq = ctx.dump_seq;
        },
      )

  -- The loop over the wakes of the thread; what follows a stop is not received.
  unfoldable pub run_flusher : FlushCtx → List Moment → List Flushed
  run_flusher ctx [] = []
  run_flusher ctx (m ∷ ms) =
      let rest = run_flusher (flush ctx m).0 ms in
      (flush ctx m).1 ∷ (if goes_on m.wake then rest else [])
