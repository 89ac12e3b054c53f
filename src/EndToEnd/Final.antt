-- ===== src/EndToEnd/Final.antt =====
-- The last flush of a run decides: its dump has a row about all that the dumps before it had.
use windows_fileserver_heatm.Prelude.{
  ℕ, ◌+◌, ◌^◌, ◌≤◌, ◌≡◌, refl, sym, ◌∙◌, ap, Option, none, some, List, [], ◌∷◌, ◌++◌, Bool, true,
  false, ◌&&◌, ◌||◌, length, arith, inl, inr,
}
use windows_fileserver_heatm.Prelude.Tests.{Bool-cases}
use windows_fileserver_heatm.Prelude.Any.{any-append, any-map}
use windows_fileserver_heatm.Prelude.Int.{ℤ}
use windows_fileserver_heatm.Prelude.Map.{lookup}
use windows_fileserver_heatm.Prelude.Order.{nat_ord, int_ord, list_ord, pair_ord, ◌==◌}
use windows_fileserver_heatm.Prelude.Text.{Text}
use windows_fileserver_heatm.Agent.Platform.{Platform}
use windows_fileserver_heatm.Agent.Events.{GuidKey, SmbEvent}
use windows_fileserver_heatm.Agent.Correlation.{run_trace, resolve_name}
use windows_fileserver_heatm.Agent.Correlation.Emission.{emit_rows}
use windows_fileserver_heatm.Agent.Correlation.Emission.Growth.{reports, reports-run_trace}
use windows_fileserver_heatm.Agent.Emit.{Serializer}
use windows_fileserver_heatm.Agent.Flusher.{FlushCtx, Moment}
use windows_fileserver_heatm.Collector.Ingest.{Wire, DumpRow}
use windows_fileserver_heatm.Collector.Db.{Store, FileKey, Engine}
use windows_fileserver_heatm.Collector.Db.Acceptance.{TakesCounts}
use windows_fileserver_heatm.Collector.Db.Files.{IsWellFormed, fact, is_about, last_write}
use windows_fileserver_heatm.Collector.Db.Facts.{KeepsNumbers}
use windows_fileserver_heatm.Collector.Server.{Host, Request, State}
use windows_fileserver_heatm.EndToEnd.{dump_row}
use windows_fileserver_heatm.EndToEnd.Losses.{covers, last_write-covers, delivered-append}
use windows_fileserver_heatm.EndToEnd.Series.{
  Attempt, NewTo, IsPosting, AreDeliverable, delivered, rows_at, post_all, last_write-append,
  post_all_delivers,
}

-- What stands before rows about other facts stands after them.
last_write-uncovered :
    (server run : Text) (rows : List DumpRow) (k : FileKey) (q : Text) (day : ℤ)
    (b : Option (ℕ × ℕ))
    → covers server run rows k q day ≡ false
    → last_write server run rows k q day b ≡ b
unfolding last_write
last_write-uncovered server run [] k q day b h = refl
last_write-uncovered server run (row ∷ rows) k q day b h =
    elim (Bool-cases (is_about server run row k q day)) [
      | inl here ↦ absurd (ground arith)
      | inr away ↦ rw away (last_write-uncovered server run rows k q day b (ground arith))
    ]

module _ (platform : Platform) where
  -- The trace went on from the first flush to the second, and each ShareGUID has the same name at
  -- both.
  pub record IsEarlier (m last : Moment) : Type 0 where
    pub log : List (SmbEvent × ℤ)
    pub grown : last.engine ≡ run_trace platform log m.engine
    pub names :
        (g : Option GuidKey)
        → resolve_name (run_trace platform log m.engine) g ≡ resolve_name m.engine g

  -- So did it from each flush that arrives.
  abbrev pub AreEarlier : Moment → List Attempt → Type 0
  AreEarlier last [] = Unit
  AreEarlier last ((others, m, none) ∷ ms) = AreEarlier last ms
  AreEarlier last ((others, m, some host) ∷ ms) = IsEarlier m last × AreEarlier last ms

module _ (platform : Platform) (to_string : Serializer) (wire : Wire) (engine : Engine) where
  module _ (server run : Text) (k : FileKey) (day : ℤ) where
    abbrev covered : List DumpRow → Bool
    covered rows = covers server run rows k run day

    abbrev about : Text → Text → ℤ → Bool
    about share path d = ◌==◌ {K = FileKey} (server, (share, path)) k && run == run && d == day

    covers_rows :
        (m : Moment)
        → covered (rows_at platform to_string wire engine m) ≡ reports platform about m.engine
    covers_rows m =
        any-map (λ row. is_about server run row k run day) dump_row (emit_rows platform m.engine)

    covers_later :
        (m last : Moment)
        → IsEarlier platform m last
        → covered (rows_at platform to_string wire engine m) ≡ true
        → covered (rows_at platform to_string wire engine last) ≡ true
    covers_later m last earlier t =
        covers_rows last
        ∙ ap (reports platform about) earlier.grown
        ∙ reports-run_trace platform about earlier.log m.engine earlier.names
            (sym (covers_rows m) ∙ t)

    covers_delivered :
        (last : Moment) (ms : List Attempt)
        → AreEarlier platform last ms
        → covered (delivered platform to_string wire engine ms) ≡ true
        → covered (rows_at platform to_string wire engine last) ≡ true
    covers_delivered last [] h t = absurd (cc)
    covers_delivered last ((others, m, none) ∷ ms) h t = covers_delivered last ms h t
    covers_delivered last ((others, m, some host) ∷ ms) h t =
        elim (Bool-cases (covered (rows_at platform to_string wire engine m))) [
          | inl here ↦ covers_later m last h.0 here
          | inr away ↦ covers_delivered last ms h.1 (
              sym (ap (λ b. b || covered (delivered platform to_string wire engine ms)) away)
              ∙ sym (
                  any-append (λ row. is_about server run row k run day)
                    (rows_at platform to_string wire engine m)
                    (delivered platform to_string wire engine ms))
              ∙ t)
        ]

    -- What the dumps before it said does not show in what the last one leaves.
    last_write-delivered :
        (last : Moment) (ms : List Attempt) (b : Option (ℕ × ℕ))
        → AreEarlier platform last ms
        → last_write server run
            (rows_at platform to_string wire engine last)
            k
            run
            day
            (last_write server run (delivered platform to_string wire engine ms) k run day b)
          ≡ last_write server run (rows_at platform to_string wire engine last) k run day b
    last_write-delivered last ms b h =
        let rows = rows_at platform to_string wire engine last in
        let before = delivered platform to_string wire engine ms in
        elim (Bool-cases (covered rows)) [
          | inl here ↦ last_write-covers server run rows k run day _ b here
          | inr away ↦
              let untouched : covered before ≡ false = elim (Bool-cases (covered before)) [
                | inl there ↦ absurd (cc (covers_delivered last ms h there))
                | inr none_there ↦ none_there
              ] in
              ap (last_write server run rows k run day)
                (last_write-uncovered server run before k run day b untouched)
        ]

  module _ (run : Text) (takes : TakesCounts engine) (keeps : KeepsNumbers engine) where
    -- The last flush decides: when the last flush of a run arrives, the collector's facts of the run
    -- are those that its dump alone would have made of the facts before the run, whichever posts of
    -- the run arrived before it, whichever were lost, and whatever other requests were answered. The
    -- trace of the run went on from each flush that arrived to the last one, with the same names of
    -- shares at both, and the conditions of post_all_delivers hold.
    pub last_flush_decides :
        (ctx : FlushCtx) (ms : List Attempt) (others : List (Host × Request)) (m : Moment)
        (host : Host) (s : State) (before : Store)
        → IsPosting platform to_string wire engine ctx
        → 1 ≤ ctx.dump_seq
        → ctx.dump_seq + length (ms ++ (others, m, some host) ∷ []) ≤ 2 ^ 31
        → AreDeliverable platform to_string wire engine run ctx (ms ++ (others, m, some host) ∷ [])
        → AreEarlier platform m ms
        → s.db ≡ some before
        → IsWellFormed before
        → NewTo ctx.dump_seq (lookup run before.runs)
        → (after : Store) × ((post_all platform to_string wire engine ctx
              (ms ++ (others, m, some host) ∷ [])
              s).0.db
            ≡ some after)
          × ((k : FileKey) (day : ℤ)
              → fact after k run day
                ≡ last_write ctx.server run
                    (rows_at platform to_string wire engine m)
                    k
                    run
                    day
                    (fact before k run day))
    last_flush_decides ctx ms others m host s before p seq small d earlier db well new =
        let all =
          post_all_delivers platform to_string wire engine run takes keeps ctx
            (ms ++ (others, m, some host) ∷ []) s before p seq small d db well new in
        (
          all.after,
          all.stored,
          λ k day.
              all.facts k day
              ∙ ap (λ rows. last_write ctx.server run rows k run day (fact before k run day))
                  (delivered-append platform to_string wire engine ms others m host)
              ∙ last_write-append platform to_string wire engine ctx.server run
                  (delivered platform to_string wire engine ms)
                  (rows_at platform to_string wire engine m) k run day (fact before k run day)
              ∙ last_write-delivered ctx.server run k day m ms (fact before k run day) earlier,
        )
