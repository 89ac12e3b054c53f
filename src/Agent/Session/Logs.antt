-- ===== src/Agent/Session/Logs.antt =====
-- The engine of a session by the log of its events, and the fields of its context that do not change.
use windows_fileserver_heatm.Prelude.{◌≡◌, refl, sym, ap, ◌∙◌, Option, none, some, List}
use windows_fileserver_heatm.Prelude.Int.{ℤ}
use windows_fileserver_heatm.Agent.Platform.{Platform}
use windows_fileserver_heatm.Agent.Events.{SmbEvent}
use windows_fileserver_heatm.Agent.Correlation.{run_trace}
use windows_fileserver_heatm.Agent.Correlation.Traces.{run_trace-append}
use windows_fileserver_heatm.Agent.Emit.{Serializer}
use windows_fileserver_heatm.Agent.Flusher.{flush}
use windows_fileserver_heatm.Agent.Session.{timed_event, on_event}
use windows_fileserver_heatm.Agent.Session.Steps.{
  Session, handled, woken, logged, Step, event, signal, finish, wake, Run, done, later,
}
use windows_fileserver_heatm.Agent.Session.Outputs.{unnumbered}

module _ (platform : Platform) (to_string : Serializer) where
  engine-handled :
      (o : Option (SmbEvent × ℤ)) (s : Session)
      → (handled platform to_string o s).engine ≡ run_trace platform (logged o) s.engine
  unfolding on_event run_trace
  engine-handled none s = refl
  engine-handled (some (ev, filetime)) s = refl

  engine-Step :
      {s t : Session} {l : List (SmbEvent × ℤ)}
      → Step platform to_string s l t
      → t.engine ≡ run_trace platform l s.engine
  unfolding woken run_trace
  engine-Step {s} (event r h) = engine-handled (timed_event r) s
  engine-Step (signal h) = refl
  engine-Step (finish h) = refl
  engine-Step (wake now h) = refl

  pub engine-Run :
      {s t : Session} {l : List (SmbEvent × ℤ)}
      → Run platform to_string s l t
      → t.engine ≡ run_trace platform l s.engine
  unfolding run_trace
  engine-Run done = refl
  engine-Run {s} (later {l = l} {m = m} step run) =
      engine-Run run
      ∙ ap (run_trace platform m) (engine-Step step)
      ∙ sym (run_trace-append platform l m s.engine)

  identity-handled :
      (o : Option (SmbEvent × ℤ)) (s : Session)
      → unnumbered (handled platform to_string o s).ctx ≡ unnumbered s.ctx
  identity-handled none s = refl
  identity-handled (some ev) s = refl

  identity-Step :
      {s t : Session} {l : List (SmbEvent × ℤ)}
      → Step platform to_string s l t
      → unnumbered t.ctx ≡ unnumbered s.ctx
  unfolding woken flush
  identity-Step {s} (event r h) = identity-handled (timed_event r) s
  identity-Step (signal h) = refl
  identity-Step (finish h) = refl
  identity-Step (wake now h) = refl

  -- The name, the run's id and the sinks of a session do not change.
  pub identity-Run :
      {s t : Session} {l : List (SmbEvent × ℤ)}
      → Run platform to_string s l t
      → unnumbered t.ctx ≡ unnumbered s.ctx
  identity-Run done = refl
  identity-Run (later step run) = identity-Run run ∙ identity-Step step
