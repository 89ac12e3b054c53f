-- ===== src/Tests/Walks.antt =====
-- The walk of a small tree, and an agent that is started on it.
use windows_fileserver_heatm.Prelude.{◌≡◌, refl, Option, none, some, [], ◌∷◌, ◌++◌, false, length}
use windows_fileserver_heatm.Prelude.Lists.{drop}
use windows_fileserver_heatm.Prelude.Map.{insert, modify}
use windows_fileserver_heatm.Prelude.Result.{ok}
use windows_fileserver_heatm.Prelude.Text.{Text, text}
use windows_fileserver_heatm.Agent.Inventory.{Walk, classify_attrs, round_up}
use windows_fileserver_heatm.Agent.Inventory.Walking.{
  FileSystem, DirEntry, readable, cluster_size, volume_root, normalize_path, trim_start_backslashes,
  walk, walk_entries, walk_metadata,
}
use windows_fileserver_heatm.Agent.Inventory.Walked.{IsWalkOf, walk_lem}
use windows_fileserver_heatm.Tests.Agent.{ascii_platform}

abbrev root : Text
root = text "C:/d"

abbrev listed : Text → Option DirEntry
listed name = some (record {
  depth = 1;
  path = root ++ name;
  metadata = some (record { file_attributes = 0x20; len = 5000 });
})

-- The root, a junction, a file, and an entry that cannot be read.
abbrev small_tree : FileSystem
small_tree = record {
  strip_prefix = λ full root. some (drop (length root) full);
  prefix_component = λ p. some (text "C:");
  disk_free_space = λ p. ok (8, 512);
  walk_dir = λ p.
      some (record { depth = 0; path = root; metadata = none })
      ∷ some (record {
        depth = 1;
        path = root ++ text "/j";
        metadata = some (record { file_attributes = 0x410; len = 0 });
      })
      ∷ listed (text "/A.TXT")
      ∷ none
      ∷ [];
}

abbrev small_walk : Walk
small_walk = record {
  entries =
      (
        (text "docs", text "a.txt"),
        record { logical = 5000; alloc = 8192; is_dir = false; sparse = false; compressed = false },
      )
      ∷ [];
  reparse_skipped = 1;
  cluster_size = 4096;
}

walked : walk ascii_platform small_tree (text "docs") root ≡ ok small_walk
unfolding walk walk_entries walk_metadata readable cluster_size volume_root normalize_path
    trim_start_backslashes classify_attrs round_up insert modify
walked = refl

walk_lem_example :
    IsWalkOf ascii_platform small_tree (text "docs") root (text "docs") (text "a.txt") small_walk
walk_lem_example =
    walk_lem ascii_platform small_tree (text "docs") root (text "docs") (text "a.txt") walked

abbrev pair : Text
pair = text "Docs=C:/d"
