-- ===== src/Agent/Session/Numbers.antt =====
-- The numbers of the outputs of a session.
use windows_fileserver_heatm.Prelude.{
  ◌+◌, ◌%◌, ◌^◌, ◌≡◌, Option, none, some, List, [], ◌∷◌, length, arith,
}
use windows_fileserver_heatm.Prelude.Int.{ℤ}
use windows_fileserver_heatm.Agent.Platform.{Platform}
use windows_fileserver_heatm.Agent.Events.{SmbEvent}
use windows_fileserver_heatm.Agent.Emit.{Serializer}
use windows_fileserver_heatm.Agent.Flusher.{Flushed, flush}
use windows_fileserver_heatm.Agent.Session.{timed_event}
use windows_fileserver_heatm.Agent.Session.Steps.{
  Session, handled, woken, Step, event, signal, finish, wake, Run, done, later,
}

-- The dumps are numbered 1, 2, and so on, the newest first; `u32` wraps.
abbrev pub IsNumbered : List Flushed → Type 0
IsNumbered [] = Unit
IsNumbered (f ∷ fs) = (f.seq ≡ (length fs + 1) % 2 ^ 32) × IsNumbered fs

-- The next number, and those before it.
abbrev pub IsCounting : Session → Type 0
IsCounting s = (s.ctx.dump_seq ≡ (length s.flushed + 1) % 2 ^ 32) × IsNumbered s.flushed

module _ (platform : Platform) (to_string : Serializer) where
  handled-IsCounting :
      (o : Option (SmbEvent × ℤ)) (s : Session)
      → IsCounting s
      → IsCounting (handled platform to_string o s)
  handled-IsCounting none s h = h
  handled-IsCounting (some ev) s h = h

  Step-IsCounting :
      {s t : Session} {l : List (SmbEvent × ℤ)}
      → Step platform to_string s l t
      → IsCounting s
      → IsCounting t
  unfolding woken flush
  Step-IsCounting {s} (event r h) c = handled-IsCounting (timed_event r) s c
  Step-IsCounting (signal h) c = c
  Step-IsCounting (finish h) c = c
  Step-IsCounting {s} (wake now h) c =
      let here : s.ctx.dump_seq ≡ (length s.flushed + 1) % 2 ^ 32 = c.0 in
      (omega arith, (here, c.1))

  pub Run-IsCounting :
      {s t : Session} {l : List (SmbEvent × ℤ)}
      → Run platform to_string s l t
      → IsCounting s
      → IsCounting t
  Run-IsCounting done c = c
  Run-IsCounting (later step run) c = Run-IsCounting run (Step-IsCounting step c)
