-- ===== src/Agent/Options/Shares.antt =====
-- The `--share` options: the first that is wrong stops the program, with what is before it walked.
use windows_fileserver_heatm.Prelude.{[], ◌∷◌}
use windows_fileserver_heatm.Prelude.Order.{nat_ord, list_ord}
use windows_fileserver_heatm.Prelude.Result.{Result}
use windows_fileserver_heatm.Prelude.Text.{Text, text, cat}
use windows_fileserver_heatm.Agent.Platform.{Platform}

-- `walk failed for NAME=ROOT: ` and the error.
abbrev pub walk_message : Text → Text → Text → Text
walk_message name root e =
    cat (text "walk failed for " ∷ name ∷ text "=" ∷ root ∷ text ": " ∷ e ∷ [])
