-- ===== src/Agent/Inventory/Walking.antt =====
-- agent/src/inventory.rs: the walk of a local tree, and the names of its entries.
use windows_fileserver_heatm.Prelude.{
  ℕ, ◌+◌, ◌*◌, ◌%◌, ◌^◌, Option, none, some, List, [], ◌∷◌, ◌++◌, if◌then◌else◌, map,
}
use windows_fileserver_heatm.Prelude.Order.{nat_ord, list_ord, pair_ord, ◌==◌}
use windows_fileserver_heatm.Prelude.Map.{insert}
use windows_fileserver_heatm.Prelude.Result.{Result, ok, err, ◌>>=◌}
use windows_fileserver_heatm.Prelude.Text.{Text, text, cat, backslash}
use windows_fileserver_heatm.Agent.Platform.{Platform}
use windows_fileserver_heatm.Agent.Inventory.{Entry, Walk, Attrs, classify_attrs, round_up}

pub record Metadata : Type 0 where
  pub file_attributes : ℕ
  pub len : ℕ

-- An entry of walkdir, the path by `to_string_lossy`; `metadata` is `none` where it cannot be read.
pub record DirEntry : Type 0 where
  pub depth : ℕ
  pub path : Text
  pub metadata : Option Metadata

-- The calls of the standard library, walkdir and Win32.
pub record FileSystem : Type 0 where
  -- `Path::strip_prefix(full, root)`.
  pub strip_prefix : Text → Text → Option Text
  -- The text of the first `Component::Prefix`.
  pub prefix_component : Text → Option Text
  -- `GetDiskFreeSpaceW`: sectors for each cluster and bytes for each sector.
  pub disk_free_space : Text → Result Text (ℕ × ℕ)
  -- `WalkDir::new(root).follow_links(false)`, with `none` for an entry that cannot be read.
  pub walk_dir : Text → List (Option DirEntry)

-- `.replace('/', "\\")`.
abbrev pub backslashed : ℕ → ℕ
backslashed c = if c == b'/' then backslash else c

-- `.trim_start_matches('\\')`.
unfoldable pub trim_start_backslashes : Text → Text
trim_start_backslashes [] = []
trim_start_backslashes (c ∷ s) =
    let rest = trim_start_backslashes s in if c == backslash then rest else c ∷ s

abbrev pub or_full : Text → Option Text → Text
or_full full none = full
or_full full (some rel) = rel

abbrev with_path : Text → Option Metadata → Option (Text × Metadata)
with_path path none = none
with_path path (some md) = some (path, md)

-- The first three `continue`s: an entry that cannot be read, the root, or no metadata.
unfoldable pub readable : Option DirEntry → Option (Text × Metadata)
readable none = none
readable (some entry) = if entry.depth == 0 then none else with_path entry.path entry.metadata

module _ (platform : Platform) (fs : FileSystem) where
  unfoldable pub normalize_path : (full local_root : Text) → Text
  normalize_path full local_root =
      let rel : Text = or_full full (fs.strip_prefix full local_root) in
      platform.to_lowercase (trim_start_backslashes (map backslashed rel))

  unfoldable pub volume_root : Text → Text
  volume_root p = elim (fs.prefix_component p) [
    | some prefix ↦ prefix ++ (backslash ∷ [])
    | none ↦ p
  ]

  abbrev space_error : Text → Text → Text
  space_error root e = cat (text "GetDiskFreeSpaceW(" ∷ root ∷ text ") failed: " ∷ e ∷ [])

  unfoldable pub cluster_size : Text → Result Text ℕ
  cluster_size local_root = elim (fs.disk_free_space (volume_root local_root)) [
    | err e ↦ err (space_error (volume_root local_root) e)
    | ok (sectors_per_cluster, bytes_per_sector) ↦
        ok (sectors_per_cluster * bytes_per_sector % 2 ^ 64)
  ]

  -- The record of a file or a directory that is sized.
  abbrev pub sized_entry : ℕ → Attrs → ℕ → Entry
  sized_entry cluster attrs logical = record {
    logical = logical;
    alloc = round_up logical cluster;
    is_dir = attrs.is_dir;
    sparse = attrs.sparse;
    compressed = attrs.compressed;
  }

  -- The loop's body once the metadata is there.
  unfoldable pub walk_metadata : Text → Text → Text → Metadata → Walk → Walk
  walk_metadata share local_root path md w =
      let attrs = classify_attrs md.file_attributes in
      if attrs.reparse
      then record w { reparse_skipped = (w.reparse_skipped + 1) % 2 ^ 64 }
      else record w {
        entries =
            insert (share, normalize_path path local_root) (sized_entry w.cluster_size attrs md.len)
              w.entries;
      }

  abbrev pub walk_found : Text → Text → Option (Text × Metadata) → Walk → Walk
  walk_found share local_root none w = w
  walk_found share local_root (some (path, md)) w = walk_metadata share local_root path md w

  -- The loop's body.
  abbrev pub walk_entry : Text → Text → Option DirEntry → Walk → Walk
  walk_entry share local_root o w = walk_found share local_root (readable o) w

  unfoldable pub walk_entries : Text → Text → List (Option DirEntry) → Walk → Walk
  walk_entries share local_root [] w = w
  walk_entries share local_root (entry ∷ rest) w =
      walk_entries share local_root rest (walk_entry share local_root entry w)

  unfoldable pub walk : Text → Text → Result Text Walk
  walk share local_root = do
    cluster ← cluster_size local_root
    ok (
        walk_entries share local_root (fs.walk_dir local_root)
          (record { entries = []; reparse_skipped = 0; cluster_size = cluster }))
