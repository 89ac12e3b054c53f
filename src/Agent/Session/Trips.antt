-- ===== src/Agent/Session/Trips.antt =====
-- When the callback signals the flusher.
use windows_fileserver_heatm.Prelude.{
  ℕ, ◌+◌, ◌-◌, ◌*◌, ◌/◌, ◌%◌, ◌^◌, ◌≡◌, ◌↔◌, true, sym, ap, ◌∙◌, List, [], ◌∷◌, ◌++◌, count, arith,
}
use windows_fileserver_heatm.Prelude.Int.{ℤ}
use windows_fileserver_heatm.Prelude.Text.{Text}
use windows_fileserver_heatm.Agent.Platform.{Platform}
use windows_fileserver_heatm.Agent.Inventory.{Inventory}
use windows_fileserver_heatm.Agent.Events.{SmbEvent}
use windows_fileserver_heatm.Agent.Correlation.{load_inventory, run_trace}
use windows_fileserver_heatm.Agent.Correlation.Traces.{run_trace-append}
use windows_fileserver_heatm.Agent.Correlation.Naming.{is_data_open, totals_from}
use windows_fileserver_heatm.Agent.Session.{is_multiple, on_event}
use windows_fileserver_heatm.Agent.Session.Steps.{loaded}

is_multiple_iff : (n : ℕ) → (is_multiple 1000 n ≡ true) ↔ ((k : ℕ) × (n ≡ (k + 1) * 1000))
is_multiple_iff n = (λ h. (n / 1000 - 1, ground arith), λ (k, e). ground arith)

module _ (platform : Platform) (inventory : Inventory) (walked_shares : List Text) where
  opens_total-run_trace :
      (log : List (SmbEvent × ℤ))
      → (run_trace platform log (loaded inventory walked_shares)).opens_total
        ≡ count is_data_open log % 2 ^ 64
  unfolding load_inventory
  opens_total-run_trace log =
      ground (arith, totals_from platform log (loaded inventory walked_shares))

  -- The callback on an event after a trace signals the flusher exactly if the number, modulo 2 ^ 64,
  -- of opens that touch file data, up to and with this event, is a positive multiple of 1000. It does
  -- not ask whether the event is such an open: while the number stands at a multiple, every 600 and
  -- every open without data access signals once more.
  pub on_event-trip :
      (log : List (SmbEvent × ℤ)) (ev : SmbEvent × ℤ)
      → ((on_event platform ev (run_trace platform log (loaded inventory walked_shares))).1.trip
          ≡ true)
        ↔ ((k : ℕ) × (count is_data_open (log ++ (ev ∷ [])) % 2 ^ 64 ≡ (k + 1) * 1000))
  unfolding on_event run_trace
  on_event-trip log (ev, filetime) =
      let opens = count is_data_open (log ++ ((ev, filetime) ∷ [])) % 2 ^ 64 in
      let tested =
        ap (λ e. is_multiple 1000 e.opens_total)
          (sym
            (run_trace-append platform log ((ev, filetime) ∷ []) (loaded inventory walked_shares)))
        ∙ ap (is_multiple 1000) (opens_total-run_trace (log ++ ((ev, filetime) ∷ []))) in
      (
        λ trip. (is_multiple_iff opens).0 (sym tested ∙ trip),
        λ multiple. tested ∙ (is_multiple_iff opens).1 multiple,
      )
