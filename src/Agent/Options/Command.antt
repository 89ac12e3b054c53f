-- ===== src/Agent/Options/Command.antt =====
-- agent/src/main.rs: what `main` makes of its arguments.
use Prim.Native.Nat.{bit_or}
use windows_fileserver_heatm.Prelude.{ℕ, Option, List, [], ◌∷◌, Bool, false, if◌then◌else◌, any}
use windows_fileserver_heatm.Prelude.Order.{nat_ord, list_ord, ◌==◌}
use windows_fileserver_heatm.Prelude.Result.{Result, ok, err, ◌>>=◌}
use windows_fileserver_heatm.Prelude.Text.{Text, text, cat}
use windows_fileserver_heatm.Agent.Platform.{Platform}
use windows_fileserver_heatm.Agent.Events.{mask_correlation, kw_rundown}
use windows_fileserver_heatm.Agent.Inventory.{Inventory, Walk}
use windows_fileserver_heatm.Agent.Inventory.Walking.{FileSystem, walk}
use windows_fileserver_heatm.Agent.Inventory.Summary.{summary}
use windows_fileserver_heatm.Agent.Session.{Mode, discover, resolve}
use windows_fileserver_heatm.Agent.Options.{
  Exit, exit_2, Shares, parse_collector, parse_emit_dir, parse_flush_secs, build_inventory,
}

-- The arguments of `etw::run`.
pub record Capture : Type 0 where
  pub mode : Mode
  pub mask : ℕ
  pub inventory : Inventory
  pub walked_shares : List Text
  pub flush_secs : ℕ
  pub emit_dir : Option Text
  pub collector : Option Text

-- A walk prints its summary; else a capture begins.
pub data Command : Type 0 where
  walked : Text → Command
  capture : Capture → Command

abbrev pub parse_mode : List Text → Result Exit Mode
parse_mode [] = ok resolve
parse_mode (program ∷ []) = ok resolve
parse_mode (program ∷ m ∷ args) =
    if m == text "discover"
    then ok discover
    else if m == text "resolve"
    then ok resolve
    else err (
        exit_2
          (cat (text "unknown mode '" ∷ m ∷ text "'. use: discover | resolve [--rundown]" ∷ [])))

unfoldable pub parse_mask : List Text → ℕ
parse_mask args =
    if any (λ a. a == text "--rundown") args
    then bit_or mask_correlation kw_rundown
    else mask_correlation

abbrev pub is_walk : List Text → Bool
is_walk (program ∷ m ∷ args) = m == text "walk"
is_walk args = false

-- The lines that follow a trace that could not start or failed.
abbrev pub capture_failed : Text → Exit
capture_failed e = record {
  code = 1;
  stderr =
      cat (text "error: " ∷ e ∷ [])
      ∷ []
      ∷ text "if this is a session/ETW error, a previous run's session may be lingering:"
      ∷ text "  logman query -ets | findstr SmbHeatSpike"
      ∷ text "  logman stop SmbHeatSpike -ets"
      ∷ [];
}

module _ (platform : Platform) (fs : FileSystem) (tb : ℕ → Text) where
  abbrev pub walk_result : Result Text Walk → Result Exit Command
  walk_result (ok w) = ok (walked (summary tb w))
  walk_result (err e) = err (record { code = 1; stderr = cat (text "walk failed: " ∷ e ∷ []) ∷ [] })

  abbrev pub walk_command : List Text → Result Exit Command
  walk_command (program ∷ m ∷ share ∷ root ∷ args) = walk_result (walk platform fs share root)
  walk_command args = err (exit_2 (text "usage: smb-heat-spike walk <ShareName> <local_root>"))

  abbrev pub shares_for : Mode → List Text → Result Exit Shares
  shares_for resolve args = build_inventory platform fs args
  shares_for discover args = ok ([], [])

  unfoldable pub capture_command : List Text → Result Exit Command
  capture_command args = do
    mode ← parse_mode args
    shares ← shares_for mode args
    flush_secs ← parse_flush_secs args
    emit_dir ← parse_emit_dir args
    collector ← parse_collector args
    ok (
        capture (record {
          mode = mode;
          mask = parse_mask args;
          inventory = shares.0;
          walked_shares = shares.1;
          flush_secs = flush_secs;
          emit_dir = emit_dir;
          collector = collector;
        }))

  -- `main`, up to `etw::run`.
  unfoldable pub main : List Text → Result Exit Command
  main args = if is_walk args then walk_command args else capture_command args
