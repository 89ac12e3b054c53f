-- ===== src/Agent/Flusher/Numbering.antt =====
-- The dumps of a run are numbered without a gap, and the tail is flushed.
use windows_fileserver_heatm.Prelude.{
  ℕ, ◌+◌, ◌%◌, ◌^◌, ◌<◌, ◌≡◌, refl, ◌∙◌, ap, List, [], ◌∷◌, Bool, true, false, if◌then◌else◌, map,
  length, arith,
}
use windows_fileserver_heatm.Agent.Platform.{Platform}
use windows_fileserver_heatm.Agent.Correlation.Emission.{resolved_table}
use windows_fileserver_heatm.Agent.Emit.{Serializer}
use windows_fileserver_heatm.Agent.Flusher.{goes_on, Moment, FlushCtx, Flushed, flush, run_flusher}

-- The wakes up to the first stop, with it.
abbrev pub until_stop : List Moment → List Moment
until_stop [] = []
until_stop (m ∷ ms) = m ∷ (if goes_on m.wake then until_stop ms else [])

-- n, n + 1, and so on.
abbrev pub count_up : ℕ → List Moment → List ℕ
count_up n [] = []
count_up n (m ∷ ms) = n ∷ count_up (n + 1) ms

module _ (platform : Platform) (to_string : Serializer) where
  -- The thread flushes once for each wake up to the first stop, and for that one too: the dumps are
  -- numbered one after the other from the context's number, and each prints the table as it is at
  -- its wake. The numbers stay below 2 ^ 32.
  pub run_flusher-numbers :
      (ctx : FlushCtx) (ms : List Moment)
      → ctx.dump_seq + length ms < 2 ^ 32
      → (map (λ f. f.seq) (run_flusher platform to_string ctx ms)
          ≡ count_up ctx.dump_seq (until_stop ms))
        × (map (λ f. f.console) (run_flusher platform to_string ctx ms)
            ≡ map (λ m. resolved_table platform m.engine) (until_stop ms))
  unfolding run_flusher flush
  run_flusher-numbers ctx [] h = (refl, refl)
  run_flusher-numbers ctx (m ∷ ms) h =
      let small : (ctx.dump_seq + 1) % 2 ^ 32 ≡ ctx.dump_seq + 1 = omega arith in
      let more = run_flusher-numbers (flush platform to_string ctx m).0 ms (omega arith) in
      let numbers = more.0 ∙ ap (λ k. count_up k (until_stop ms)) small in
      (
        ap (λ t. ctx.dump_seq ∷ t) (by_wake (goes_on m.wake) numbers),
        ap (λ t. resolved_table platform m.engine ∷ t) (by_wake_tables (goes_on m.wake) more.1),
      )
    where
      rest : List Flushed
      rest = run_flusher platform to_string (flush platform to_string ctx m).0 ms

      by_wake :
          (b : Bool)
          → map (λ f. f.seq) rest ≡ count_up (ctx.dump_seq + 1) (until_stop ms)
          → map (λ f. f.seq) (if b then rest else [])
            ≡ count_up (ctx.dump_seq + 1) (if b then until_stop ms else [])
      by_wake true e = e
      by_wake false e = refl

      by_wake_tables :
          (b : Bool)
          → map (λ f. f.console) rest ≡ map (λ n. resolved_table platform n.engine) (until_stop ms)
          → map (λ f. f.console) (if b then rest else [])
            ≡ map (λ n. resolved_table platform n.engine) (if b then until_stop ms else [])
      by_wake_tables true e = e
      by_wake_tables false e = refl
