-- ===== src/Agent/Session.antt =====
-- agent/src/etw.rs: a capture session. The thread of the trace runs `callback` on each record, and
-- the flusher thread receives what it signals; they share the engine behind its lock and the
-- channel. A session is a step relation over the interleavings of the two.
pub mod Steps
pub mod Trips
pub mod Outputs
pub mod Logs
pub mod Numbers
pub mod Safety
pub mod Shutdown
use windows_fileserver_heatm.Prelude.{
  ℕ, ◌%◌, ◌<◌, ◌≡◌, Option, none, some, List, [], ◌∷◌, ◌++◌, Bool, true, false, ◌&&◌, ltb,
  if◌then◌else◌,
}
use windows_fileserver_heatm.Prelude.Int.{ℤ}
use windows_fileserver_heatm.Prelude.Order.{nat_ord, ◌==◌}
use windows_fileserver_heatm.Prelude.Text.{Text, text, cat}
use windows_fileserver_heatm.Agent.Platform.{Platform}
use windows_fileserver_heatm.Agent.Inventory.{Inventory}
use windows_fileserver_heatm.Agent.Events.{Parser, SmbEvent, parse_event}
use windows_fileserver_heatm.Agent.Discover.{discover_dump}
use windows_fileserver_heatm.Agent.Correlation.{
  CorrelationEngine, ResolvedAccess, apply, empty_engine, load_inventory, walked_shares_vec,
}
use windows_fileserver_heatm.Agent.Correlation.Summary.{stats_line}
use windows_fileserver_heatm.Agent.Correlation.Console.{fmt_resolved_access}

pub data Mode : Type 0 where
  discover resolve : Mode

-- A record as ferrisetw hands it over; `parser` is `none` where no schema is found.
pub record EventRecord : Type 0 where
  pub event_id : ℕ
  pub raw_timestamp : ℤ
  pub parser : Option Parser

-- What one run of the callback prints, and whether it signals the flusher.
pub record Reaction : Type 0 where
  pub stdout : List Text
  pub stderr : List Text
  pub trip : Bool

abbrev pub no_reaction : Reaction
no_reaction = record { stdout = []; stderr = []; trip = false }

-- `opens_total % n == 0 && opens_total > 0`.
abbrev pub is_multiple : ℕ → ℕ → Bool
is_multiple n opens_total = opens_total % n == 0 && ltb 0 opens_total

abbrev printed : Option ResolvedAccess → List Text
printed none = []
printed (some access) = fmt_resolved_access access ∷ []

-- The event of a record, with its time stamp.
unfoldable pub timed_event : EventRecord → Option (SmbEvent × ℤ)
timed_event r = elim r.parser [
  | none ↦ none
  | some parser ↦ elim (parse_event parser r.event_id) [
    | none ↦ none
    | some ev ↦ some (ev, r.raw_timestamp)
  ]
]

abbrev discovered : Option Text → Reaction
discovered none = no_reaction
discovered (some line) = record no_reaction { stdout = line ∷ [] }

module _ (platform : Platform) where
  -- The callback's part under the lock, and the trip that it computes there.
  unfoldable pub on_event : SmbEvent × ℤ → CorrelationEngine → CorrelationEngine × Reaction
  on_event (ev, filetime) e =
      let (eng, access) = apply platform ev filetime e in
      (
        eng,
        record {
          stdout = printed access;
          stderr =
              if is_multiple 200 eng.opens_total
              then cat (text "  [" ∷ stats_line eng ∷ text "]" ∷ []) ∷ []
              else [];
          trip = is_multiple 1000 eng.opens_total;
        },
      )

  unfoldable pub callback :
      (List ℕ → Text) → Mode → EventRecord → CorrelationEngine → CorrelationEngine × Reaction
  callback ipv6 discover r e = elim r.parser [
    | none ↦ (e, no_reaction)
    | some parser ↦ (e, discovered (discover_dump ipv6 parser r.event_id))
  ]
  callback ipv6 resolve r e = elim (timed_event r) [
    | none ↦ (e, no_reaction)
    | some ev ↦ on_event ev e
  ]
