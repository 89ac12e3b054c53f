-- ===== src/Agent/Session/Shutdown.antt =====
-- What holds of a session once the trace has ended: the flusher drains its channel, and its last
-- output is the table of the whole trace.
use mathlib.Core.WellFounded.{Acc}
use mathlib.Core.Path.{subst}
use windows_fileserver_heatm.Prelude.{
  ℕ, zero, suc, ◌≤◌, ◌≡◌, refl, sym, ◌∙◌, inl, inr, List, [], ◌∷◌, Bool, true, false, length, arith,
  Bool-cases,
}
use windows_fileserver_heatm.Prelude.Int.{ℤ}
use windows_fileserver_heatm.Prelude.Text.{Text}
use windows_fileserver_heatm.Agent.Platform.{Platform}
use windows_fileserver_heatm.Agent.Inventory.{Inventory}
use windows_fileserver_heatm.Agent.Events.{SmbEvent}
use windows_fileserver_heatm.Agent.Correlation.{run_trace}
use windows_fileserver_heatm.Agent.Emit.{Serializer}
use windows_fileserver_heatm.Agent.Flusher.{FlushMsg, Flushed}
use windows_fileserver_heatm.Agent.Session.Steps.{
  Phase, tracing, signalling, ended, Session, session_start, loaded, woken, Step, event, signal,
  finish, wake, Run, done, later, after_recv,
}
use windows_fileserver_heatm.Agent.Session.Outputs.{Shows, unnumbered}
use windows_fileserver_heatm.Agent.Session.Logs.{identity-Run, engine-Run}
use windows_fileserver_heatm.Agent.Session.Safety.{
  EndsWith, IsLive, IsSafe, Step-IsSafe, Run-IsSafe,
}
use windows_fileserver_heatm.Agent.Session.Numbers.{IsNumbered, Run-IsCounting}

abbrev Never : Phase → Type 0
Never ended = Unit
Never tracing = ⊥
Never signalling = ⊥

module _ (platform : Platform) (to_string : Serializer) where
  -- A step after the end takes one message.
  drained :
      (b : Bool) (p : Phase) (q : List FlushMsg) (Q : Flushed → Type 0) (fs : List Flushed)
      → b ≡ true
      → p ≡ ended
      → IsLive b p q Q fs
      → suc (length (after_recv q)) ≡ length q
  drained b p [] Q fs runs e live =
      absurd (subst (λ p. IsLive true p [] Q fs) e (subst (λ b. IsLive b p [] Q fs) runs live))
  drained b p (m ∷ q) Q fs runs e live = refl

  absurd_step : {p q : Phase} → p ≡ ended → p ≡ q → Never q
  absurd_step e h = subst Never (sym e ∙ h) tt

  Step-drains :
      {s t : Session} {l : List (SmbEvent × ℤ)}
      → Step platform to_string s l t
      → s.phase ≡ ended
      → IsSafe platform to_string s
      → (suc (length t.queue) ≡ length s.queue) × (t.phase ≡ ended)
  unfolding woken
  Step-drains (event r h) e safe = absurd (absurd_step e h)
  Step-drains (signal h) e safe = absurd (absurd_step e h)
  Step-drains (finish h) e safe = absurd (absurd_step e h)
  Step-drains {s} (wake now h) e safe = (
    drained s.running s.phase s.queue (Shows platform to_string (unnumbered s.ctx) s.engine)
        s.flushed h e safe,
    e,
  )

  none_left : {m n : ℕ} → n ≤ 0 → suc m ≡ n → ⊥
  none_left fits e = omega arith

  -- `t` comes after `s` in one step.
  abbrev pub After : Session → Session → Type 0
  After t s = (l : List (SmbEvent × ℤ)) × Step platform to_string s l t

  drains-Acc :
      (n : ℕ) (s : Session)
      → length s.queue ≤ n
      → s.phase ≡ ended
      → IsSafe platform to_string s
      → Acc After s
  drains-Acc zero s fits e safe =
      Acc.intro s (λ t st. let (less, _) = Step-drains st.1 e safe in absurd (none_left fits less))
  drains-Acc (suc n) s fits e safe = Acc.intro s (λ t st.
      let (less, stays) = Step-drains st.1 e safe in
      drains-Acc n t (omega arith) stays (Step-IsSafe platform to_string st.1 safe))

  stops :
      (n : ℕ) (s : Session)
      → length s.queue ≤ n
      → s.phase ≡ ended
      → IsSafe platform to_string s
      → (t : Session) × (Run platform to_string s [] t × (t.running ≡ false))
  stops zero s fits e safe = elim (Bool-cases s.running) [
    | inr gone ↦ (s, (done, gone))
    | inl runs ↦ absurd (none_left fits (Step-drains {s = s} (wake [] runs) e safe).0)
  ]
  stops (suc n) s fits e safe = elim (Bool-cases s.running) [
    | inr gone ↦ (s, (done, gone))
    | inl runs ↦
        let (less, stays) = Step-drains (wake [] runs) e safe in
        let (t, (run, gone)) =
          stops n (woken platform to_string [] s) (omega arith) stays
            (Step-IsSafe platform to_string (wake [] runs) safe) in
        (t, (later (wake [] runs) run, gone))
  ]

  start-IsSafe :
      (server run_id : Text) (inv : Inventory) (walked : List Text) (emit_dir collector : Bool)
      → IsSafe platform to_string (session_start server run_id inv walked emit_dir collector)
  unfolding session_start
  start-IsSafe server run_id inv walked emit_dir collector = tt

  ended_with :
      (b : Bool) (p : Phase) (q : List FlushMsg) (Q : Flushed → Type 0) (fs : List Flushed)
      → b ≡ false
      → IsLive b p q Q fs
      → EndsWith Q fs
  ended_with false ended q Q fs gone live = live
  ended_with false tracing q Q fs gone live = elim live [ ]
  ended_with false signalling q Q fs gone live = elim live [ ]
  ended_with true p q Q fs gone live = ground (arith, gone)

  module _ (server run_id : Text) (inventory : Inventory) (walked_shares : List Text)
      (emit_dir collector : Bool) where
    -- In every interleaving of the two threads: when the flusher is gone, its last output is that of
    -- all events that the session counted, though it may have been signalled at any time: the
    -- console shows their table, and the document for the sinks, if there is one, has their rows
    -- under the session's name and run and under the output's number. The outputs are numbered 1, 2,
    -- and so on, modulo 2 ^ 32.
    pub final_flush :
        {s : Session} {log : List (SmbEvent × ℤ)}
        → Run platform to_string
            (session_start server run_id inventory walked_shares emit_dir collector)
            log
            s
        → s.running ≡ false
        → EndsWith
            (Shows platform to_string
              (unnumbered
                (session_start server run_id inventory walked_shares emit_dir collector).ctx)
              (run_trace platform log (loaded inventory walked_shares)))
            s.flushed
          × IsNumbered s.flushed
    unfolding session_start
    final_flush {s} run gone =
        let safe =
          Run-IsSafe platform to_string run
            (start-IsSafe server run_id inventory walked_shares emit_dir collector) in
        let counting = Run-IsCounting platform to_string run (omega arith, tt) in
        let last =
          ended_with s.running s.phase s.queue
            (Shows platform to_string (unnumbered s.ctx) s.engine) s.flushed gone safe in
        (
          subst
              (λ e.
                EndsWith
                  (Shows platform to_string
                    (unnumbered
                      (session_start server run_id inventory walked_shares emit_dir collector).ctx)
                    e)
                  s.flushed)
              (engine-Run platform to_string run)
              (subst (λ c. EndsWith (Shows platform to_string c s.engine) s.flushed)
                (identity-Run platform to_string run) last),
          counting.1,
        )

    -- Once the trace has ended, no run of the session goes on for ever, and the flusher is gone after
    -- some further steps: `join` returns.
    pub drains :
        {s : Session} {log : List (SmbEvent × ℤ)}
        → Run platform to_string
            (session_start server run_id inventory walked_shares emit_dir collector)
            log
            s
        → s.phase ≡ ended
        → Acc After s × ((t : Session) × (Run platform to_string s [] t × (t.running ≡ false)))
    unfolding session_start
    drains {s} run e =
        let safe =
          Run-IsSafe platform to_string run
            (start-IsSafe server run_id inventory walked_shares emit_dir collector) in
        (
          drains-Acc (length s.queue) s (omega arith) e safe,
          stops (length s.queue) s (omega arith) e safe,
        )
