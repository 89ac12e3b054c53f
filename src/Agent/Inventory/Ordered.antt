-- ===== src/Agent/Inventory/Ordered.antt =====
-- agent/src/inventory.rs: the entries of a walk stand in the order of their keys.
use mathlib.Core.Path.{subst}
use windows_fileserver_heatm.Prelude.{
  ◌+◌, ◌%◌, ◌^◌, ◌≡◌, Option, none, some, List, [], ◌∷◌, Bool, true, false, if◌then◌else◌,
}
use windows_fileserver_heatm.Prelude.Order.{nat_ord, list_ord, pair_ord}
use windows_fileserver_heatm.Prelude.Map.{Ascending, insert, insert-Ascending}
use windows_fileserver_heatm.Prelude.Result.{ok, >>=-eq-ok}
use windows_fileserver_heatm.Prelude.Text.{Text}
use windows_fileserver_heatm.Agent.Platform.{Platform}
use windows_fileserver_heatm.Agent.Inventory.{Entry, Walk, classify_attrs}
use windows_fileserver_heatm.Agent.Inventory.Walking.{
  Metadata, DirEntry, FileSystem, normalize_path, cluster_size, sized_entry, walk_metadata,
  readable, walk_found, walk_entries, walk,
}

walk_found-Ascending :
    (platform : Platform) (fs : FileSystem) (share local_root : Text) (o : Option (Text × Metadata))
    (w : Walk)
    → Ascending w.entries
    → Ascending (walk_found platform fs share local_root o w).entries
walk_found-Ascending platform fs share local_root none w h = h
walk_found-Ascending platform fs share local_root (some (name, md)) w h =
    unfold walk_metadata in by_attrs (classify_attrs md.file_attributes).reparse
  where
    key : Text × Text
    key = (share, normalize_path platform fs name local_root)

    entry : Entry
    entry = sized_entry platform fs w.cluster_size (classify_attrs md.file_attributes) md.len

    by_attrs :
        (b : Bool)
        → Ascending
            (if b
              then record w { reparse_skipped = (w.reparse_skipped + 1) % 2 ^ 64 }
              else record w { entries = insert key entry w.entries }).entries
    by_attrs true = h
    by_attrs false = insert-Ascending key entry w.entries h

walk_entries-Ascending :
    (platform : Platform) (fs : FileSystem) (share local_root : Text)
    (listing : List (Option DirEntry)) (w : Walk)
    → Ascending w.entries
    → Ascending (walk_entries platform fs share local_root listing w).entries
unfolding walk_entries
walk_entries-Ascending platform fs share local_root [] w h = h
walk_entries-Ascending platform fs share local_root (o ∷ rest) w h =
    walk_entries-Ascending platform fs share local_root rest _
      (walk_found-Ascending platform fs share local_root (readable o) w h)

-- The names of a walk stand in order, each once.
pub walk-Ascending :
    (platform : Platform) (fs : FileSystem) (share local_root : Text) {w : Walk}
    → walk platform fs share local_root ≡ ok w
    → Ascending w.entries
unfolding walk
walk-Ascending platform fs share local_root {w} h =
    let (cluster, found, e) = >>=-eq-ok (cluster_size platform fs local_root) _ {b = w} h in
    let start : Walk = record { entries = []; reparse_skipped = 0; cluster_size = cluster } in
    let made : walk_entries platform fs share local_root (fs.walk_dir local_root) start ≡ w =
      cc e in
    subst (λ w. Ascending w.entries) made
      (walk_entries-Ascending platform fs share local_root (fs.walk_dir local_root) start tt)
