-- ===== src/Collector/Archive.antt =====
-- collector/src/archive.rs: the two functions that write a body to the archive.
pub mod Files
pub mod Places
use windows_fileserver_heatm.Prelude.{ℕ, Option, none, some, [], ◌∷◌}
use windows_fileserver_heatm.Prelude.Order.{list_ord, nat_ord}
use windows_fileserver_heatm.Prelude.Map.{Map, insert}
use windows_fileserver_heatm.Prelude.Text.{Text, text, decimal, cat}

-- What `std::fs::write` does to a file: it holds all bytes, or there is an error, and the file is not
-- touched or holds something else.
pub data Write : Type 0 where
  whole : Write
  failed : Text → Option Text → Write

-- The file system, for one request. Paths are those below the archive's directory. A directory that
-- cannot be made gives an error.
pub record Disk : Type 0 where
  pub parent : Text → Option Text
  pub create_dir_all : Text → Option Text
  pub write : Text → Write

-- The files of the archive, and the error, if any.
abbrev pub Written : Type 0
Written = Map Text Text × Option Text

-- `std::fs::write(dest, body)` by what the file system does.
abbrev pub fs_write : Text → Text → Map Text Text → Write → Written
fs_write dest body files whole = (insert dest body files, none)
fs_write dest body files (failed e (some left)) = (insert dest left files, some e)
fs_write dest body files (failed e none) = (files, some e)

-- `create_dir_all(dir)?` before the write, by its error.
abbrev pub write_below : Disk → Text → Text → Map Text Text → Option Text → Written
write_below disk dest body files none = fs_write dest body files (disk.write dest)
write_below disk dest body files (some e) = (files, some e)

unfoldable pub write_verbatim : Disk → Text → Text → Map Text Text → Written
write_verbatim disk rel_path body files = elim (disk.parent rel_path) [
  | some parent ↦ write_below disk rel_path body files (disk.create_dir_all parent)
  | none ↦ fs_write rel_path body files (disk.write rel_path)
]

abbrev pub malformed_path : ℕ → Text
malformed_path unix_millis = cat (text "_malformed/" ∷ decimal unix_millis ∷ text ".ndjson" ∷ [])

unfoldable pub write_malformed : Disk → ℕ → Text → Map Text Text → Written
write_malformed disk unix_millis body files =
    write_below disk (malformed_path unix_millis) body files
      (disk.create_dir_all (text "_malformed"))
