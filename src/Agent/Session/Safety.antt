-- ===== src/Agent/Session/Safety.antt =====
-- What every step of a session keeps: the channel of a live flusher holds signals, with one stop at
-- its end once the trace has ended, and a flusher that is gone has shown the engine as it is.
use mathlib.Core.Path.{subst}
use windows_fileserver_heatm.Prelude.{
  ◌≡◌, ◌≢◌, refl, Option, none, some, List, [], ◌∷◌, ◌++◌, Bool, true, false, arith, if◌then◌else◌,
}
use windows_fileserver_heatm.Prelude.Int.{ℤ}
use windows_fileserver_heatm.Prelude.Lists.{All, All-append}
use windows_fileserver_heatm.Agent.Platform.{Platform}
use windows_fileserver_heatm.Agent.Events.{SmbEvent}
use windows_fileserver_heatm.Agent.Emit.{Serializer}
use windows_fileserver_heatm.Agent.Flusher.{FlushMsg, flush_now, stop, goes_on, Flushed, flush}
use windows_fileserver_heatm.Agent.Session.{timed_event, on_event}
use windows_fileserver_heatm.Agent.Session.Steps.{
  Phase, tracing, signalling, ended, Session, handled, woken, Step, event, signal, finish, wake,
  Run, done, later, recv, after_recv, phase_after,
}
use windows_fileserver_heatm.Agent.Session.Outputs.{unnumbered, Shows, flush-Shows}

-- Only signals wait.
abbrev pub Signals : List FlushMsg → Type 0
Signals = All (λ m. m ≡ flush_now)

-- Signals wait, and behind them one stop.
abbrev pub EndsInStop : List FlushMsg → Type 0
EndsInStop [] = ⊥
EndsInStop (flush_now ∷ q) = EndsInStop q
EndsInStop (stop ∷ q) = q ≡ []

-- The channel of a live flusher.
abbrev pub IsPending : Phase → List FlushMsg → Type 0
IsPending tracing q = Signals q
IsPending signalling q = Signals q
IsPending ended q = EndsInStop q

-- The newest output is such.
abbrev pub EndsWith : (Flushed → Type 0) → List Flushed → Type 0
EndsWith Q [] = ⊥
EndsWith Q (f ∷ fs) = Q f

abbrev pub IsLive : Bool → Phase → List FlushMsg → (Flushed → Type 0) → List Flushed → Type 0
IsLive true phase queue Q flushed = IsPending phase queue
IsLive false ended queue Q flushed = EndsWith Q flushed
IsLive false phase queue Q flushed = ⊥

module _ (platform : Platform) (to_string : Serializer) where
  abbrev pub IsSafe : Session → Type 0
  IsSafe s =
      IsLive s.running s.phase s.queue (Shows platform to_string (unnumbered s.ctx) s.engine)
        s.flushed

  appended : (q : List FlushMsg) → Signals q → EndsInStop (q ++ (stop ∷ []))
  appended [] h = refl
  appended (flush_now ∷ q) h = appended q h.1
  appended (stop ∷ q) h = refl_stop h.0
    where
      refl_stop : stop ≡ flush_now → q ++ (stop ∷ []) ≡ []
      refl_stop e = ground (arith, e)

  -- Before the end of the trace the flusher runs, and nothing but signals waits for it.
  tracing_live :
      (b : Bool) (p : Phase) (q : List FlushMsg) (Q : Flushed → Type 0) (fs : List Flushed)
      → p ≢ ended
      → IsLive b p q Q fs
      → (b ≡ true) × Signals q
  tracing_live b ended q Q fs h l = absurd (h refl)
  tracing_live true tracing q Q fs h l = (refl, l)
  tracing_live true signalling q Q fs h l = (refl, l)
  tracing_live false tracing q Q fs h l = elim l [ ]
  tracing_live false signalling q Q fs h l = elim l [ ]

  received-IsLive :
      (p : Phase) (q : List FlushMsg) (Q : Flushed → Type 0) (f : Flushed) (fs : List Flushed)
      → Q f
      → IsPending p q
      → IsLive (goes_on (recv q)) p (after_recv q) Q (f ∷ fs)
  received-IsLive tracing [] Q f fs e h = tt
  received-IsLive signalling [] Q f fs e h = tt
  received-IsLive ended [] Q f fs e h = elim h [ ]
  received-IsLive tracing (flush_now ∷ q) Q f fs e h = h.1
  received-IsLive signalling (flush_now ∷ q) Q f fs e h = h.1
  received-IsLive ended (flush_now ∷ q) Q f fs e h = h
  received-IsLive tracing (stop ∷ q) Q f fs e h = ground (arith, h.0)
  received-IsLive signalling (stop ∷ q) Q f fs e h = ground (arith, h.0)
  received-IsLive ended (stop ∷ q) Q f fs e h = e

  -- The trace's thread lives on: what it does to the channel keeps a live session live.
  live :
      (b : Bool) (p : Phase) (q : List FlushMsg) (Q : Flushed → Type 0) (fs : List Flushed)
      → b ≡ true
      → IsPending p q
      → IsLive b p q Q fs
  live true p q Q fs e h = h
  live false p q Q fs e h = ground (arith, e)

  phase_after-IsPending :
      (r : Bool) (q : List FlushMsg) → Signals q → IsPending (if r then signalling else tracing) q
  phase_after-IsPending true q h = h
  phase_after-IsPending false q h = h

  not_ended : {p : Phase} → p ≡ tracing → p ≢ ended
  not_ended {p} e h = ground (arith, e, h)

  not_ended_signalling : {p : Phase} → p ≡ signalling → p ≢ ended
  not_ended_signalling {p} e h = ground (arith, e, h)

  handled-IsSafe :
      (o : Option (SmbEvent × ℤ)) (s : Session)
      → s.phase ≡ tracing
      → IsSafe s
      → IsSafe (handled platform to_string o s)
  handled-IsSafe none s h safe = safe
  handled-IsSafe (some ev) s h safe =
      let (runs, waiting) =
        tracing_live s.running s.phase s.queue
          (Shows platform to_string (unnumbered s.ctx) s.engine) s.flushed (not_ended h) safe in
      let (eng, reaction) = on_event platform ev s.engine in
      live s.running (phase_after reaction) s.queue
        (Shows platform to_string (unnumbered s.ctx) eng) s.flushed runs
        (phase_after-IsPending reaction.trip s.queue waiting)

  pub Step-IsSafe :
      {s t : Session} {l : List (SmbEvent × ℤ)}
      → Step platform to_string s l t
      → IsSafe s
      → IsSafe t
  unfolding woken flush
  Step-IsSafe {s} (event r h) safe = handled-IsSafe (timed_event r) s h safe
  Step-IsSafe {s} (signal h) safe =
      let (runs, waiting) =
        tracing_live s.running s.phase s.queue
          (Shows platform to_string (unnumbered s.ctx) s.engine) s.flushed (not_ended_signalling h)
          safe in
      live s.running tracing (s.queue ++ flush_now ∷ [])
        (Shows platform to_string (unnumbered s.ctx) s.engine) s.flushed runs
        (All-append (λ m. m ≡ flush_now) s.queue (flush_now ∷ []) waiting (refl, tt))
  Step-IsSafe {s} (finish h) safe =
      let (runs, waiting) =
        tracing_live s.running s.phase s.queue
          (Shows platform to_string (unnumbered s.ctx) s.engine) s.flushed (not_ended h) safe in
      live s.running ended (s.queue ++ stop ∷ [])
        (Shows platform to_string (unnumbered s.ctx) s.engine) s.flushed runs
        (appended s.queue waiting)
  Step-IsSafe {s} (wake now h) safe =
      received-IsLive s.phase s.queue (Shows platform to_string (unnumbered s.ctx) s.engine) _
        s.flushed
        (flush-Shows platform to_string s.ctx
          (record { wake = recv s.queue; engine = s.engine; rfc3339_now = now }))
        (subst
          (λ b.
            IsLive b s.phase s.queue (Shows platform to_string (unnumbered s.ctx) s.engine)
              s.flushed)
          h safe)

  pub Run-IsSafe :
      {s t : Session} {l : List (SmbEvent × ℤ)} → Run platform to_string s l t → IsSafe s → IsSafe t
  Run-IsSafe done safe = safe
  Run-IsSafe (later step run) safe = Run-IsSafe run (Step-IsSafe step safe)
