-- ===== src/Agent/Correlation/Naming.antt =====
-- Names of shares: a 600 names every open of its share, those before it too. And the counters of
-- the opens.
use windows_fileserver_heatm.Prelude.{
  ℕ, ◌+◌, ◌%◌, ◌^◌, ◌<◌, ◌≡◌, refl, ◌∙◌, Option, some, List, [], ◌∷◌, Bool, false, not,
  if◌then◌else◌, count, arith,
}
use windows_fileserver_heatm.Prelude.Int.{ℤ}
use windows_fileserver_heatm.Prelude.Order.{nat_ord, ◌==◌}
use windows_fileserver_heatm.Prelude.Map.{lookup, lookup-insert}
use windows_fileserver_heatm.Prelude.Text.{Text}
use windows_fileserver_heatm.Agent.Platform.{Platform}
use windows_fileserver_heatm.Agent.Events.{GuidKey, SmbEvent, tree_connect, open_file}
use windows_fileserver_heatm.Agent.Correlation.{
  metadata, CorrelationEngine, empty_engine, classify_access, record_open, apply, run_trace,
  resolve_name, unknown_share,
}
use windows_fileserver_heatm.Agent.Correlation.Counts.{same_access}

-- The name that the last 600 of a share in a trace gives it, or an earlier one.
abbrev pub last_name : GuidKey → List (SmbEvent × ℤ) → Text → Text
last_name g [] before = before
last_name g ((tree_connect h s, filetime) ∷ log) before =
    last_name g log (if h == g then s else before)
last_name g ((open_file opened tree sg p access, filetime) ∷ log) before = last_name g log before

-- An open that touches no file data.
abbrev pub is_metadata_open : SmbEvent × ℤ → Bool
is_metadata_open (tree_connect g s, filetime) = false
is_metadata_open (open_file opened tree g p access, filetime) =
    same_access (classify_access access) metadata

abbrev pub is_data_open : SmbEvent × ℤ → Bool
is_data_open (tree_connect g s, filetime) = false
is_data_open (open_file opened tree g p access, filetime) =
    not (same_access (classify_access access) metadata)

module _ (platform : Platform) where
  shares-apply_open :
      (opened tree : GuidKey) (sg : Option GuidKey) (p : Text) (access : ℕ) (filetime : ℤ)
      (e : CorrelationEngine)
      → (apply platform (open_file opened tree sg p access) filetime e).0.shares ≡ e.shares
  unfolding apply record_open
  shares-apply_open opened tree sg p access filetime e = ground arith

  resolve_name-apply :
      (g : GuidKey) (ev : SmbEvent) (filetime : ℤ) (e : CorrelationEngine)
      → resolve_name (apply platform ev filetime e).0 (some g)
        ≡ last_name g ((ev, filetime) ∷ []) (resolve_name e (some g))
  unfolding resolve_name
  resolve_name-apply g (tree_connect h s) filetime e =
      unfold apply in ground (arith, lookup-insert h g s e.shares)
  resolve_name-apply g (open_file opened tree sg p access) filetime e =
      rw (shares-apply_open opened tree sg p access filetime e, resolve_name)

  last_name-cons :
      (g : GuidKey) (ev : SmbEvent × ℤ) (log : List (SmbEvent × ℤ)) (before : Text)
      → last_name g (ev ∷ log) before ≡ last_name g log (last_name g (ev ∷ []) before)
  last_name-cons g (tree_connect h s, filetime) log before = refl
  last_name-cons g (open_file opened tree sg p access, filetime) log before = refl

  resolve_name-run_trace_from :
      (g : GuidKey) (log : List (SmbEvent × ℤ)) (e : CorrelationEngine)
      → resolve_name (run_trace platform log e) (some g) ≡ last_name g log (resolve_name e (some g))
  unfolding run_trace
  resolve_name-run_trace_from g [] e = refl
  resolve_name-run_trace_from g ((ev, filetime) ∷ log) e = cc (
    resolve_name-run_trace_from g log (apply platform ev filetime e).0,
    resolve_name-apply g ev filetime e,
    last_name-cons g (ev, filetime) log (resolve_name e (some g)),
  )

  -- After any trace a share has the name that its last 600 gave it, and UNKNOWN if the trace has no
  -- 600 of it. Opens change no name, so the 600 may stand before or after them.
  pub resolve_name-run_trace :
      (g : GuidKey) (log : List (SmbEvent × ℤ))
      → resolve_name (run_trace platform log empty_engine) (some g) ≡ last_name g log unknown_share
  resolve_name-run_trace g log =
      resolve_name-run_trace_from g log empty_engine ∙ (unfold resolve_name lookup in refl)

  totals-apply :
      (ev : SmbEvent) (filetime : ℤ) (e : CorrelationEngine)
      → ((apply platform ev filetime e).0.opens_total
          ≡ (if is_data_open (ev, filetime) then (e.opens_total + 1) % 2 ^ 64 else e.opens_total))
        × ((apply platform ev filetime e).0.metadata_skipped ≡ (
            if is_metadata_open (ev, filetime)
            then (e.metadata_skipped + 1) % 2 ^ 64
            else e.metadata_skipped))
  unfolding apply record_open
  totals-apply (tree_connect g s) filetime e = (refl, refl)
  totals-apply (open_file opened tree sg p access) filetime e = ground arith

  pub totals_from :
      (log : List (SmbEvent × ℤ)) (e : CorrelationEngine)
      → e.opens_total < 2 ^ 64
      → e.metadata_skipped < 2 ^ 64
      → ((run_trace platform log e).opens_total ≡ (e.opens_total + count is_data_open log) % 2 ^ 64)
        × ((run_trace platform log e).metadata_skipped
            ≡ (e.metadata_skipped + count is_metadata_open log) % 2 ^ 64)
  unfolding run_trace
  totals_from [] e ho hm = ground arith
  totals_from ((ev, filetime) ∷ log) e ho hm =
      ground (arith, totals-apply ev filetime e, totals_from log (apply platform ev filetime e).0)

  -- After any trace the two totals are the numbers, modulo 2 ^ 64, of the opens that touch file data
  -- and of those that do not.
  pub totals-run_trace :
      (log : List (SmbEvent × ℤ))
      → ((run_trace platform log empty_engine).opens_total ≡ count is_data_open log % 2 ^ 64)
        × ((run_trace platform log empty_engine).metadata_skipped
            ≡ count is_metadata_open log % 2 ^ 64)
  totals-run_trace log = ground (arith, totals_from log empty_engine)
