-- ===== src/Agent/Options/Joined.antt =====
-- From the command line to the join: what a walked share makes of a heat key.
use windows_fileserver_heatm.Prelude.{Option, none, some, List, [], ◌∷◌, if◌then◌else◌}
use windows_fileserver_heatm.Prelude.Order.{nat_ord, list_ord, pair_ord}
use windows_fileserver_heatm.Prelude.Text.{Text, text}
use windows_fileserver_heatm.Agent.Platform.{Platform}
use windows_fileserver_heatm.Agent.Inventory.{Entry, Inventory, Walk}
use windows_fileserver_heatm.Agent.Inventory.Walking.{FileSystem}
use windows_fileserver_heatm.Agent.Correlation.Emission.{KeyOutcome, leaf, restat, drop_dir}
use windows_fileserver_heatm.Agent.Options.{extend}
use windows_fileserver_heatm.Agent.Options.Command.{Capture, parse_mask}
use windows_fileserver_heatm.Agent.Session.{resolve}

-- How a key of a walked share is treated, by the entry of its path.
abbrev pub joined : Option Entry → KeyOutcome
joined none = restat
joined (some entry) = if entry.is_dir then drop_dir else leaf entry.alloc

abbrev or_before : Option Entry → Option Entry → Option Entry
or_before none before = before
or_before (some entry) before = some entry

abbrev arguments : Text → Text → List Text
arguments program pair = program ∷ text "resolve" ∷ text "--share" ∷ pair ∷ []

module _ (platform : Platform) (fs : FileSystem) where
  abbrev capture_of : Text → Text → Text → Walk → Capture
  capture_of program pair name w = record {
    mode = resolve;
    mask = parse_mask (arguments program pair);
    inventory = extend w.entries [];
    walked_shares = platform.to_lowercase name ∷ [];
    flush_secs = 300;
    emit_dir = none;
    collector = none;
  }
