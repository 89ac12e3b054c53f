-- ===== src/Agent/Correlation/Console.antt =====
-- agent/src/correlation.rs: the line that is printed for each counted open.
use windows_fileserver_heatm.Prelude.{[], ◌∷◌}
use windows_fileserver_heatm.Prelude.Text.{Text, text, cat, hex, upper_hex, decimal_ℤ, backslash}
use windows_fileserver_heatm.Agent.Events.{fmt_guid_key}
use windows_fileserver_heatm.Agent.Correlation.{Access, read, write, metadata, ResolvedAccess}
use windows_fileserver_heatm.Agent.Correlation.Summary.{fmt_share_guid}

-- The derived `Debug`.
abbrev debug_access : Access → Text
debug_access read = text "Read"
debug_access write = text "Write"
debug_access metadata = text "Metadata"

unfoldable pub fmt_resolved_access : ResolvedAccess → Text
fmt_resolved_access r = cat (
    r.share
    ∷ (backslash ∷ [])
    ∷ r.path
    ∷ text "  share_guid="
    ∷ fmt_share_guid r.share_guid
    ∷ text " open="
    ∷ fmt_guid_key r.open_guid
    ∷ text " tree="
    ∷ fmt_guid_key r.tree
    ∷ text " access=0x"
    ∷ hex upper_hex 8 r.access
    ∷ text " "
    ∷ debug_access r.kind
    ∷ text " day="
    ∷ decimal_ℤ r.day
    ∷ [])
