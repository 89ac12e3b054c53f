-- ===== src/Agent/Session/Steps.antt =====
-- agent/src/etw.rs, resolve mode: what the two threads do, one step at a time. The callback
-- releases the lock before it signals, so the flusher may run between the two; the trace ends
-- between two callbacks, and only then is the stop sent.
use windows_fileserver_heatm.Prelude.{
  ◌≡◌, Option, none, some, List, [], ◌∷◌, ◌++◌, Bool, true, if◌then◌else◌,
}
use windows_fileserver_heatm.Prelude.Int.{ℤ}
use windows_fileserver_heatm.Prelude.Text.{Text}
use windows_fileserver_heatm.Agent.Platform.{Platform}
use windows_fileserver_heatm.Agent.Inventory.{Inventory}
use windows_fileserver_heatm.Agent.Events.{SmbEvent}
use windows_fileserver_heatm.Agent.Correlation.{
  CorrelationEngine, empty_engine, load_inventory, walked_shares_vec,
}
use windows_fileserver_heatm.Agent.Emit.{Serializer}
use windows_fileserver_heatm.Agent.Flusher.{
  FlushMsg, flush_now, stop, Wake, received, timeout, goes_on, Moment, FlushCtx, Flushed, flush,
}
use windows_fileserver_heatm.Agent.Session.{EventRecord, Reaction, timed_event, on_event}

-- The thread of the trace: it waits for a record, has a trip to signal, or the trace has ended.
pub data Phase : Type 0 where
  tracing signalling ended : Phase

-- `queue` is the channel, its oldest message first; `flushed` is all output, the newest first.
pub record Session : Type 0 where
  pub engine : CorrelationEngine
  pub phase : Phase
  pub queue : List FlushMsg
  pub ctx : FlushCtx
  pub running : Bool
  pub flushed : List Flushed

abbrev pub loaded : Inventory → List Text → CorrelationEngine
loaded inventory walked_shares = load_inventory inventory walked_shares empty_engine

-- `server_name` and `mint_run_id` are called once, when the session starts.
unfoldable pub session_start :
    (server run_id : Text) → Inventory → List Text → (emit_dir collector : Bool) → Session
session_start server run_id inventory walked_shares emit_dir collector = record {
  engine = loaded inventory walked_shares;
  phase = tracing;
  queue = [];
  ctx = record {
    server = server;
    run_id = run_id;
    walked_shares = walked_shares_vec (loaded inventory walked_shares);
    emit_dir = emit_dir;
    collector = collector;
    dump_seq = 1;
  };
  running = true;
  flushed = [];
}

-- `recv_timeout`: the oldest message, or the end of the interval when there is none.
abbrev pub recv : List FlushMsg → Wake
recv [] = timeout
recv (m ∷ q) = received m

abbrev pub after_recv : List FlushMsg → List FlushMsg
after_recv [] = []
after_recv (m ∷ q) = q

abbrev pub phase_after : Reaction → Phase
phase_after r = if r.trip then signalling else tracing

-- The events that a record adds to the log.
abbrev pub logged : Option (SmbEvent × ℤ) → List (SmbEvent × ℤ)
logged none = []
logged (some ev) = ev ∷ []

-- `tx.send`.
abbrev pub send : FlushMsg → Session → Session
send m s = record s { queue = s.queue ++ (m ∷ []) }

module _ (platform : Platform) (to_string : Serializer) where
  -- The callback on one record, for the event that it holds.
  abbrev pub handled : Option (SmbEvent × ℤ) → Session → Session
  handled none s = s
  handled (some ev) s =
      let (eng, reaction) = on_event platform ev s.engine in
      record s { engine = eng; phase = phase_after reaction }

  -- One turn of the flusher's loop.
  unfoldable pub woken : Text → Session → Session
  woken now s =
      let m : Moment = record { wake = recv s.queue; engine = s.engine; rfc3339_now = now } in
      let (ctx, out) = flush platform to_string s.ctx m in
      record s {
        queue = after_recv s.queue;
        ctx = ctx;
        running = goes_on (recv s.queue);
        flushed = out ∷ s.flushed;
      }

  -- A step, with the events that it counts.
  pub data Step (s : Session) : List (SmbEvent × ℤ) → Session → Type 0 where
    event :
        (r : EventRecord)
        → s.phase ≡ tracing
        → Step s (logged (timed_event r)) (handled (timed_event r) s)
    signal : s.phase ≡ signalling → Step s [] (send flush_now (record s { phase = tracing }))
    finish : s.phase ≡ tracing → Step s [] (send stop (record s { phase = ended }))
    wake : (now : Text) → s.running ≡ true → Step s [] (woken now s)

  -- Steps one after the other, with the log of their events.
  pub data Run : Session → List (SmbEvent × ℤ) → Session → Type 0 where
    done : {s : Session} → Run s [] s
    later :
        {s t u : Session} {l m : List (SmbEvent × ℤ)} → Step s l t → Run t m u → Run s (l ++ m) u
