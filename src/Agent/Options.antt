-- ===== src/Agent/Options.antt =====
-- agent/src/main.rs: the command line. A run that stops the process is an `Exit` with its code and
-- the lines on stderr.
pub mod Shares
pub mod Joined
pub mod Command
use Prim.Native.Nat.{bit_or}
use windows_fileserver_heatm.Prelude.{
  ℕ, ◌+◌, ◌-◌, ◌*◌, ◌^◌, Option, none, some, List, [], ◌∷◌, ◌++◌, Bool, true, false, if◌then◌else◌,
  any, all, ltb,
}
use windows_fileserver_heatm.Prelude.Order.{nat_ord, list_ord, pair_ord, ◌==◌}
use windows_fileserver_heatm.Prelude.Map.{insert}
use windows_fileserver_heatm.Prelude.Result.{Result, ok, err, ◌>>=◌}
use windows_fileserver_heatm.Prelude.Text.{Text, text, cat, split_once, is_empty, is_ascii_digit}
use windows_fileserver_heatm.Agent.Platform.{Platform}
use windows_fileserver_heatm.Agent.Events.{mask_correlation, kw_rundown}
use windows_fileserver_heatm.Agent.Inventory.{Entry, Inventory, Walk}
use windows_fileserver_heatm.Agent.Inventory.Walking.{FileSystem, walk}
use windows_fileserver_heatm.Agent.Inventory.Summary.{summary}
use windows_fileserver_heatm.Agent.Session.{Mode, discover, resolve}

pub record Exit : Type 0 where
  pub code : ℕ
  pub stderr : List Text

abbrev pub exit_2 : Text → Exit
exit_2 line = record { code = 2; stderr = line ∷ [] }

-- The loops of `parse_collector` and `parse_emit_dir`, behind the program's name.
unfoldable pub scan : (flag missing : Text) → List Text → Result Exit (Option Text)
scan flag missing [] = ok none
scan flag missing (a ∷ []) = if a == flag then err (exit_2 missing) else ok none
scan flag missing (a ∷ v ∷ args) =
    let rest = scan flag missing (v ∷ args) in if a == flag then ok (some v) else rest

abbrev pub behind_program : List Text → List Text
behind_program [] = []
behind_program (program ∷ args) = args

unfoldable pub parse_collector : List Text → Result Exit (Option Text)
parse_collector args =
    scan (text "--collector") (text "--collector needs a URL") (behind_program args)

unfoldable pub parse_emit_dir : List Text → Result Exit (Option Text)
parse_emit_dir args =
    scan (text "--emit-dir") (text "--emit-dir needs a directory path") (behind_program args)

abbrev value_of_digits : ℕ → Text → ℕ
value_of_digits acc [] = acc
value_of_digits acc (c ∷ s) = value_of_digits (acc * 10 + (c - 48)) s

abbrev drop_plus : Text → Text
drop_plus [] = []
drop_plus (c ∷ s) = if c == b'+' then s else c ∷ s

-- `str::parse::<u64>`: an optional plus, digits, and no overflow.
unfoldable pub parse_u64 : Text → Option ℕ
parse_u64 v =
    let digits = drop_plus v in
    if is_empty digits
    then none
    else if all is_ascii_digit digits
    then (if ltb (value_of_digits 0 digits) (2 ^ 64) then some (value_of_digits 0 digits) else none)
    else none

abbrev pub flush_secs_or : Option Text → Result Exit ℕ
flush_secs_or none = ok 300
flush_secs_or (some v) = elim (parse_u64 v) [
  | some secs ↦ ok secs
  | none ↦
      err (
        exit_2
          (cat (text "--flush-secs expects a non-negative integer, got '" ∷ v ∷ text "'" ∷ [])))
]

unfoldable pub parse_flush_secs : List Text → Result Exit ℕ
parse_flush_secs args =
    scan (text "--flush-secs") (text "--flush-secs needs a value in seconds") (behind_program args)
    >>= flush_secs_or

-- `HashMap::extend`; the added keys are distinct, so that their order does not matter.
unfoldable pub extend : Inventory → Inventory → Inventory
extend [] inv = inv
extend ((key, entry) ∷ entries) inv = insert key entry (extend entries inv)

-- `HashSet::insert`.
abbrev pub set_insert : Text → List Text → List Text
set_insert a s = if any (λ b. b == a) s then s else a ∷ s

-- The inventory and the walked shares that `build_inventory` gathers.
abbrev pub Shares : Type 0
Shares = Inventory × List Text

abbrev pub share_flag : Text
share_flag = text "--share"

abbrev pub missing_pair : Exit
missing_pair = exit_2 (text "--share needs a NAME=ROOT pair")

abbrev pub bad_pair : Text → Exit
bad_pair pair = exit_2 (cat (text "--share expects NAME=ROOT, got '" ∷ pair ∷ text "'" ∷ []))

abbrev pub walk_failed : Text → Text → Text → Exit
walk_failed name root e = record {
  code = 1;
  stderr = cat (text "walk failed for " ∷ name ∷ text "=" ∷ root ∷ text ": " ∷ e ∷ []) ∷ [];
}

module _ (platform : Platform) (fs : FileSystem) where
  abbrev pub add_walk : Text → Text → Result Text Walk → Shares → Result Exit Shares
  add_walk name root (ok w) (inv, walked) =
      ok (extend w.entries inv, set_insert (platform.to_lowercase name) walked)
  add_walk name root (err e) shares = err (walk_failed name root e)

  abbrev pub add_pair : Text → Option (Text × Text) → Shares → Result Exit Shares
  add_pair pair none shares = err (bad_pair pair)
  add_pair pair (some (name, root)) shares =
      add_walk name root (walk platform fs (platform.to_lowercase name) root) shares

  unfoldable pub add_share : Text → Shares → Result Exit Shares
  add_share pair shares = add_pair pair (split_once b'=' pair) shares

  -- The loop, from one argument on.
  unfoldable pub build_from : List Text → Shares → Result Exit Shares
  build_from [] shares = ok shares
  build_from (a ∷ []) shares = if a == share_flag then err missing_pair else ok shares
  build_from (a ∷ b ∷ args) shares =
      let added = add_share b shares >>= build_from args in
      let passed = build_from (b ∷ args) shares in if a == share_flag then added else passed

  unfoldable pub build_inventory : List Text → Result Exit Shares
  build_inventory args = build_from (behind_program args) ([], [])
