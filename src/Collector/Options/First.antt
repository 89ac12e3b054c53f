-- ===== src/Collector/Options/First.antt =====
-- The first occurrence of a flag decides.
use windows_fileserver_heatm.Prelude.{◌≡◌, ◌≢◌, refl, ◌∙◌, none, some, List, [], ◌∷◌, ◌++◌}
use windows_fileserver_heatm.Prelude.Lists.{All}
use windows_fileserver_heatm.Prelude.Order.{nat_ord, list_ord, ==_refl, ==_differ}
use windows_fileserver_heatm.Prelude.Text.{Text}
use windows_fileserver_heatm.Prelude.Result.{ok, err}
use windows_fileserver_heatm.Collector.Options.{needs_value, find_value, parse_value}

-- Arguments without the flag are passed over.
find_value_skip :
    (before rest : List Text) (flag v : Text)
    → All (λ a. a ≢ flag) before
    → find_value (before ++ v ∷ rest) flag ≡ find_value (v ∷ rest) flag
unfolding find_value
find_value_skip [] rest flag v h = refl
find_value_skip (a ∷ []) rest flag v h = rw (==_differ a flag h.0) refl
find_value_skip (a ∷ b ∷ before) rest flag v h =
    rw (==_differ a flag h.0) (find_value_skip (b ∷ before) rest flag v h.1)

find_value_absent :
    (args : List Text) (flag : Text) → All (λ a. a ≢ flag) args → find_value args flag ≡ ok none
unfolding find_value
find_value_absent [] flag h = refl
find_value_absent (a ∷ []) flag h = rw (==_differ a flag h.0) refl
find_value_absent (a ∷ b ∷ args) flag h =
    rw (==_differ a flag h.0) (find_value_absent (b ∷ args) flag h.1)

-- Behind arguments that are not the flag, the argument after the flag is its value, whatever follows;
-- a flag that ends the line stops the program; and without the flag there is no value.
pub parse_value_first :
    (program : Text) (before after : List Text) (flag v : Text)
    → All (λ a. a ≢ flag) before
    → (parse_value (program ∷ before ++ flag ∷ v ∷ after) flag ≡ ok (some v))
      × (parse_value (program ∷ before ++ flag ∷ []) flag ≡ err (needs_value flag))
      × (parse_value (program ∷ before) flag ≡ ok none)
unfolding parse_value find_value
parse_value_first program before after flag v h = (
  find_value_skip before (v ∷ after) flag flag h ∙ (rw (==_refl flag) refl),
  find_value_skip before [] flag flag h ∙ (rw (==_refl flag) refl),
  find_value_absent before flag h,
)
