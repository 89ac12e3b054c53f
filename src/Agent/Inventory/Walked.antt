-- ===== src/Agent/Inventory/Walked.antt =====
-- What a walk finds: the last record of each name, and nothing of a reparse point.
use mathlib.Core.Path.{subst}
use windows_fileserver_heatm.Prelude.{
  ℕ, ◌+◌, ◌%◌, ◌^◌, ◌<◌, ◌≡◌, refl, sym, ap, ◌∙◌, Option, none, some, List, [], ◌∷◌, ◌&&◌, Bool,
  true, false, if◌then◌else◌, count, arith,
}
use windows_fileserver_heatm.Prelude.Order.{nat_ord, list_ord, pair_ord, ◌==◌, ==_pair}
use windows_fileserver_heatm.Prelude.Map.{lookup, lookup-insert}
use windows_fileserver_heatm.Prelude.Result.{ok, >>=-eq-ok}
use windows_fileserver_heatm.Prelude.Text.{Text}
use windows_fileserver_heatm.Agent.Platform.{Platform}
use windows_fileserver_heatm.Agent.Inventory.{Entry, Walk, classify_attrs}
use windows_fileserver_heatm.Agent.Inventory.Walking.{
  Metadata, DirEntry, FileSystem, normalize_path, cluster_size, sized_entry, walk_metadata,
  readable, walk_found, walk_entry, walk_entries, walk,
}

-- A reparse point, of the entries that can be read.
abbrev is_reparse_found : Option (Text × Metadata) → Bool
is_reparse_found none = false
is_reparse_found (some (name, md)) = (classify_attrs md.file_attributes).reparse

abbrev pub is_reparse : Option DirEntry → Bool
is_reparse o = is_reparse_found (readable o)

module _ (platform : Platform) (fs : FileSystem) (local_root : Text) (cluster : ℕ) where
  abbrev record_found : Option (Text × Metadata) → Option (Text × Entry)
  record_found none = none
  record_found (some (name, md)) =
      if (classify_attrs md.file_attributes).reparse
      then none
      else some (
        normalize_path platform fs name local_root,
        sized_entry platform fs cluster (classify_attrs md.file_attributes) md.len,
      )

  -- The record of an entry, under its name below the root.
  abbrev pub record_of : Option DirEntry → Option (Text × Entry)
  record_of o = record_found (readable o)

  abbrev pub replaces : Text → Option (Text × Entry) → Option Entry → Option Entry
  replaces path none before = before
  replaces path (some (name, entry)) before = if name == path then some entry else before

  -- The last record of a name in a listing, or an earlier one.
  abbrev pub last_record : Text → List (Option DirEntry) → Option Entry → Option Entry
  last_record path [] before = before
  last_record path (o ∷ rest) before = last_record path rest (replaces path (record_of o) before)

  -- What a step does to the record of one name.
  abbrev pub if_share : (share s : Text) → Option Entry → Option Entry → Option Entry
  if_share share s found before = if share == s then found else before

  two_rounds :
      (b : Bool) (f : Option Entry → Option Entry) (r z : Option Entry) {x y : Option Entry}
      → x ≡ (if b then f y else y)
      → y ≡ (if b then r else z)
      → x ≡ (if b then f r else z)
  two_rounds true f r z p q = p ∙ ap f q
  two_rounds false f r z p q = p ∙ q

  module _ (share s path : Text) where
    lookup-walk_metadata :
        (name : Text) (md : Metadata) (w : Walk)
        → w.cluster_size ≡ cluster
        → lookup (s, path) (walk_metadata platform fs share local_root name md w).entries ≡ (
            if (classify_attrs md.file_attributes).reparse
            then lookup (s, path) w.entries
            else if share == s && normalize_path platform fs name local_root == path
            then some (sized_entry platform fs cluster (classify_attrs md.file_attributes) md.len)
            else lookup (s, path) w.entries)
    unfolding walk_metadata
    lookup-walk_metadata name md w e = ground (
      arith,
      e,
      ==_pair share s (normalize_path platform fs name local_root) path,
      lookup-insert (share, normalize_path platform fs name local_root) (s, path)
          (sized_entry platform fs w.cluster_size (classify_attrs md.file_attributes) md.len)
          w.entries,
    )

    cluster_size-walk_metadata :
        (name : Text) (md : Metadata) (w : Walk)
        → (walk_metadata platform fs share local_root name md w).cluster_size ≡ w.cluster_size
    unfolding walk_metadata
    cluster_size-walk_metadata name md w = ground arith

    skipped-walk_metadata :
        (name : Text) (md : Metadata) (w : Walk)
        → (walk_metadata platform fs share local_root name md w).reparse_skipped ≡ (
            if (classify_attrs md.file_attributes).reparse
            then (w.reparse_skipped + 1) % 2 ^ 64
            else w.reparse_skipped)
    unfolding walk_metadata
    skipped-walk_metadata name md w = ground arith

    cluster_size-walk_found :
        (o : Option (Text × Metadata)) (w : Walk)
        → (walk_found platform fs share local_root o w).cluster_size ≡ w.cluster_size
    cluster_size-walk_found none w = refl
    cluster_size-walk_found (some (name, md)) w = cluster_size-walk_metadata name md w

    skipped-walk_found :
        (o : Option (Text × Metadata)) (w : Walk)
        → (walk_found platform fs share local_root o w).reparse_skipped
          ≡ (if is_reparse_found o then (w.reparse_skipped + 1) % 2 ^ 64 else w.reparse_skipped)
    skipped-walk_found none w = refl
    skipped-walk_found (some (name, md)) w = skipped-walk_metadata name md w

    lookup-walk_found :
        (o : Option (Text × Metadata)) (w : Walk)
        → w.cluster_size ≡ cluster
        → lookup (s, path) (walk_found platform fs share local_root o w).entries
          ≡ if_share share s
              (replaces path (record_found o) (lookup (s, path) w.entries))
              (lookup (s, path) w.entries)
    lookup-walk_found none w e = ground arith
    lookup-walk_found (some (name, md)) w e = ground (arith, lookup-walk_metadata name md w e)

    -- The loop over a listing.
    lookup-walk_entries :
        (listing : List (Option DirEntry)) (w : Walk)
        → w.cluster_size ≡ cluster
        → lookup (s, path) (walk_entries platform fs share local_root listing w).entries
          ≡ if_share share s
              (last_record path listing (lookup (s, path) w.entries))
              (lookup (s, path) w.entries)
    unfolding walk_entries
    lookup-walk_entries [] w e = ground arith
    lookup-walk_entries (o ∷ rest) w e =
        let next = walk_entry platform fs share local_root o w in
        two_rounds (share == s) (last_record path rest) _ _
          (lookup-walk_entries rest next (cluster_size-walk_found (readable o) w ∙ e))
          (lookup-walk_found (readable o) w e)

    skipped-walk_entries :
        (listing : List (Option DirEntry)) (w : Walk)
        → w.reparse_skipped < 2 ^ 64
        → (walk_entries platform fs share local_root listing w).reparse_skipped
          ≡ (w.reparse_skipped + count is_reparse listing) % 2 ^ 64
    unfolding walk_entries
    skipped-walk_entries [] w h = omega arith
    skipped-walk_entries (o ∷ rest) w h = ground (
      arith,
      skipped-walk_found (readable o) w,
      skipped-walk_entries rest (walk_entry platform fs share local_root o w),
    )

-- What the listing of a root says of a walk: its clusters, the entry under one key, and its count.
abbrev pub IsWalkOf : Platform → FileSystem → (share local_root s path : Text) → Walk → Type 0
IsWalkOf platform fs share local_root s path w =
    (cluster_size platform fs local_root ≡ ok w.cluster_size)
    × (lookup (s, path) w.entries ≡ (
        if share == s
        then last_record platform fs local_root w.cluster_size path (fs.walk_dir local_root) none
        else none))
    × (w.reparse_skipped ≡ count is_reparse (fs.walk_dir local_root) % 2 ^ 64)

cluster_size-walk_entries :
    (platform : Platform) (fs : FileSystem) (share local_root : Text)
    (listing : List (Option DirEntry)) (w : Walk)
    → (walk_entries platform fs share local_root listing w).cluster_size ≡ w.cluster_size
unfolding walk_entries
cluster_size-walk_entries platform fs share local_root [] w = refl
cluster_size-walk_entries platform fs share local_root (o ∷ rest) w =
    cluster_size-walk_entries platform fs share local_root rest _
    ∙ cluster_size-walk_found platform fs local_root w.cluster_size share [] [] (readable o) w

-- A walk that succeeds has, under the name of its share, the last record of each path that its
-- listing shows, reparse points left out and sizes rounded up to the volume's cluster; under another
-- share it has nothing; and it counts the reparse points, modulo 2 ^ 64.
pub walk_lem :
    (platform : Platform) (fs : FileSystem) (share local_root s path : Text) {w : Walk}
    → walk platform fs share local_root ≡ ok w
    → IsWalkOf platform fs share local_root s path w
unfolding walk lookup
walk_lem platform fs share local_root s path {w} h =
    let (cluster, found, e) = >>=-eq-ok (cluster_size platform fs local_root) _ {b = w} h in
    let start : Walk = record { entries = []; reparse_skipped = 0; cluster_size = cluster } in
    let made : walk_entries platform fs share local_root (fs.walk_dir local_root) start ≡ w =
      cc e in
    let same =
      cluster_size-walk_entries platform fs share local_root (fs.walk_dir local_root) start in
    subst (IsWalkOf platform fs share local_root s path) made (
      found ∙ ap ok (sym same),
      rw same (
          lookup-walk_entries platform fs local_root cluster share s path (fs.walk_dir local_root)
            start refl),
      omega (
        arith,
        skipped-walk_entries platform fs local_root cluster share s path (fs.walk_dir local_root)
            start (omega arith),
      ),
    )
