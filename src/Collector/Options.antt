-- ===== src/Collector/Options.antt =====
-- collector/src/main.rs: the options of the command line.
pub mod First
use windows_fileserver_heatm.Prelude.{
  Option, none, some, List, [], ◌∷◌, ◌++◌, Bool, true, false, if◌then◌else◌,
}
use windows_fileserver_heatm.Prelude.Order.{nat_ord, list_ord, ◌==◌}
use windows_fileserver_heatm.Prelude.Text.{Text, text}
use windows_fileserver_heatm.Prelude.Result.{Result, ok, err, ◌>>=◌}

-- The program prints a line and exits with code 2.
pub data Exit : Type 0 where
  needs_value : Text → Exit

-- The loop of `parse_value`, over the arguments behind the program's name.
unfoldable pub find_value : List Text → Text → Result Exit (Option Text)
find_value [] flag = ok none
find_value (a ∷ []) flag = if a == flag then err (needs_value flag) else ok none
find_value (a ∷ v ∷ args) flag =
    let rest = find_value (v ∷ args) flag in if a == flag then ok (some v) else rest

unfoldable pub parse_value : List Text → Text → Result Exit (Option Text)
parse_value [] flag = ok none
parse_value (program ∷ args) flag = find_value args flag

abbrev pub value_or : Text → Option Text → Text
value_or default none = default
value_or default (some v) = v

unfoldable pub parse_bind : List Text → Result Exit Text
parse_bind args = parse_value args (text "--bind") >>= λ v. ok (value_or (text "0.0.0.0:2742") v)

unfoldable pub parse_archive_dir : List Text → Result Exit Text
parse_archive_dir args =
    parse_value args (text "--archive-dir") >>= λ v. ok (value_or (text "./archive") v)

unfoldable pub parse_db : List Text → Result Exit (Option Text)
parse_db args = parse_value args (text "--db")

unfoldable pub parse_tier_log : List Text → Result Exit (Option Text)
parse_tier_log args = parse_value args (text "--tier-log")
