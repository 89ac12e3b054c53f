-- ===== src/EndToEnd/Losses.antt =====
-- A post that is lost does no harm: the next dump supersedes it.
use mathlib.Core.List.{append_assoc, append-nil}
use windows_fileserver_heatm.Prelude.{
  ℕ, ◌+◌, ◌^◌, ◌≤◌, ◌≡◌, refl, sym, ◌∙◌, ap, Option, none, some, List, [], ◌∷◌, ◌++◌, Bool, true,
  false, ◌||◌, any, length, arith, if◌then◌else◌,
}
use windows_fileserver_heatm.Prelude.Int.{ℤ}
use windows_fileserver_heatm.Prelude.Map.{lookup}
use windows_fileserver_heatm.Prelude.Order.{nat_ord, list_ord}
use windows_fileserver_heatm.Prelude.Text.{Text}
use windows_fileserver_heatm.Agent.Platform.{Platform}
use windows_fileserver_heatm.Agent.Emit.{Serializer}
use windows_fileserver_heatm.Agent.Flusher.{FlushCtx, Moment}
use windows_fileserver_heatm.Collector.Ingest.{Wire, DumpRow}
use windows_fileserver_heatm.Collector.Db.{Store, FileKey, Engine}
use windows_fileserver_heatm.Collector.Db.Acceptance.{TakesCounts}
use windows_fileserver_heatm.Collector.Db.Files.{IsWellFormed, fact, is_about, last_write}
use windows_fileserver_heatm.Collector.Db.Facts.{KeepsNumbers}
use windows_fileserver_heatm.Collector.Server.{Host, Request, State}
use windows_fileserver_heatm.EndToEnd.Series.{
  Attempt, NewTo, IsPosting, AreDeliverable, Delivered, delivered, rows_at, post_all,
  last_write-append, post_all_delivers,
}

-- Some row is about the file and the day.
abbrev pub covers : Text → Text → List DumpRow → FileKey → Text → ℤ → Bool
covers server run rows k q day = any (λ row. is_about server run row k q day) rows

-- What stood before a row that is written does not matter.
pub last_write-covers :
    (server run : Text) (rows : List DumpRow) (k : FileKey) (q : Text) (day : ℤ)
    (b c : Option (ℕ × ℕ))
    → covers server run rows k q day ≡ true
    → last_write server run rows k q day b ≡ last_write server run rows k q day c
unfolding last_write
last_write-covers server run [] k q day b c h = absurd (ground arith)
last_write-covers server run (row ∷ rows) k q day b c h =
    by_test (is_about server run row k q day)
      (λ b c h. last_write-covers server run rows k q day b c h) h
  where
    by_test :
        (here : Bool)
        → ((b c : Option (ℕ × ℕ))
            → covers server run rows k q day ≡ true
            → last_write server run rows k q day b ≡ last_write server run rows k q day c)
        → here || covers server run rows k q day ≡ true
        → last_write server run rows k q day (if here then some (row.reads, row.writes) else b)
          ≡ last_write server run rows k q day (if here then some (row.reads, row.writes) else c)
    by_test true later h = refl
    by_test false later h = later b c h

module _ (platform : Platform) (to_string : Serializer) (wire : Wire) (engine : Engine) where
  pub delivered-append :
      (ms : List Attempt) (others : List (Host × Request)) (m : Moment) (host : Host)
      → delivered platform to_string wire engine (ms ++ (others, m, some host) ∷ [])
        ≡ delivered platform to_string wire engine ms ++ rows_at platform to_string wire engine m
  delivered-append [] others m host = append-nil (rows_at platform to_string wire engine m)
  delivered-append ((before, n, none) ∷ ms) others m host = delivered-append ms others m host
  delivered-append ((before, n, some h) ∷ ms) others m host =
      ap (λ rows. rows_at platform to_string wire engine n ++ rows)
        (delivered-append ms others m host)
      ∙ sym (
          append_assoc (rows_at platform to_string wire engine n)
            (delivered platform to_string wire engine ms)
            (rows_at platform to_string wire engine m))

  module _ (run : Text) (takes : TakesCounts engine) (keeps : KeepsNumbers engine) where
    -- A fact that the last dump has a row about is the last dump's.
    superseded :
        (ctx : FlushCtx) (ms : List Attempt) (others : List (Host × Request)) (m : Moment)
        (host : Host) (s : State) (before : Store) (k : FileKey) (day : ℤ)
        → (d : Delivered platform to_string wire engine run ctx.server
            (ms ++ (others, m, some host) ∷ [])
            before
            (post_all platform to_string wire engine ctx (ms ++ (others, m, some host) ∷ []) s))
        → covers ctx.server run (rows_at platform to_string wire engine m) k run day ≡ true
        → fact d.after k run day
          ≡ last_write ctx.server run (rows_at platform to_string wire engine m) k run day none
    superseded ctx ms others m host s before k day d h =
        let last = rows_at platform to_string wire engine m in
        d.facts k day
        ∙ ap (λ rows. last_write ctx.server run rows k run day (fact before k run day))
            (delivered-append ms others m host)
        ∙ last_write-append platform to_string wire engine ctx.server run
            (delivered platform to_string wire engine ms) last k run day (fact before k run day)
        ∙ last_write-covers ctx.server run last k run day _ none h

    -- Lost posts are harmless: of two histories of a run that end with the same flush, and that flush
    -- arrives, whichever posts were lost before it and whatever other requests were answered, each
    -- leaves every fact of the run that its dump has a row about as that dump says, so that the two
    -- databases agree on them. The conditions of post_all_delivers hold for both histories.
    pub losses_harmless :
        (ctx : FlushCtx) (ms ns : List Attempt) (others others' : List (Host × Request))
        (m : Moment) (host : Host) (s : State) (before : Store)
        → IsPosting platform to_string wire engine ctx
        → 1 ≤ ctx.dump_seq
        → ctx.dump_seq + length (ms ++ (others, m, some host) ∷ []) ≤ 2 ^ 31
        → ctx.dump_seq + length (ns ++ (others', m, some host) ∷ []) ≤ 2 ^ 31
        → AreDeliverable platform to_string wire engine run ctx (ms ++ (others, m, some host) ∷ [])
        → AreDeliverable platform to_string wire engine run ctx (ns ++ (others', m, some host) ∷ [])
        → s.db ≡ some before
        → IsWellFormed before
        → NewTo ctx.dump_seq (lookup run before.runs)
        → (a : Store) × (b : Store) × ((post_all platform to_string wire engine ctx
              (ms ++ (others, m, some host) ∷ [])
              s).0.db
            ≡ some a)
          × ((post_all platform to_string wire engine ctx
                (ns ++ (others', m, some host) ∷ [])
                s).0.db
              ≡ some b)
          × ((k : FileKey) (day : ℤ)
              → covers ctx.server run (rows_at platform to_string wire engine m) k run day ≡ true
              → (fact a k run day ≡ fact b k run day)
                × (fact a k run day
                    ≡ last_write ctx.server run
                        (rows_at platform to_string wire engine m)
                        k
                        run
                        day
                        none))
    losses_harmless ctx ms ns others others' m host s before p seq small small' d d' db well new =
        let one =
          post_all_delivers platform to_string wire engine run takes keeps ctx
            (ms ++ (others, m, some host) ∷ []) s before p seq small d db well new in
        let two =
          post_all_delivers platform to_string wire engine run takes keeps ctx
            (ns ++ (others', m, some host) ∷ []) s before p seq small' d' db well new in
        (
          one.after,
          two.after,
          one.stored,
          two.stored,
          λ k day h. (
            superseded ctx ms others m host s before k day one h
                ∙ sym (superseded ctx ns others' m host s before k day two h),
            superseded ctx ms others m host s before k day one h,
          ),
        )
