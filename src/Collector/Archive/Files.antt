-- ===== src/Collector/Archive/Files.antt =====
-- What the two functions do to the files of the archive.
use windows_fileserver_heatm.Prelude.{ℕ, ◌≡◌, ◌≢◌, refl, ◌∙◌, ap, Option, none, some}
use windows_fileserver_heatm.Prelude.Order.{list_ord, nat_ord}
use windows_fileserver_heatm.Prelude.Map.{Map, lookup, insert, insert_other}
use windows_fileserver_heatm.Prelude.Text.{Text}
use windows_fileserver_heatm.Collector.Archive.{
  Write, whole, failed, Disk, Written, fs_write, write_below, write_verbatim, malformed_path,
  write_malformed,
}

-- No directory and no file gives an error.
pub record IsHealthy (disk : Disk) : Type 0 where
  pub creates : (dir : Text) → disk.create_dir_all dir ≡ none
  pub writes : (path : Text) → disk.write path ≡ whole

module _ (disk : Disk) (body : Text) (files : Map Text Text) where
  fs_write-healthy :
      (dest : Text) (w : Write)
      → w ≡ whole
      → fs_write dest body files w ≡ (insert dest body files, none)
  fs_write-healthy dest w h = ap (fs_write dest body files) h

  write_below-healthy :
      IsHealthy disk
      → (dest dir : Text)
      → write_below disk dest body files (disk.create_dir_all dir) ≡ (insert dest body files, none)
  write_below-healthy healthy dest dir =
      ap (write_below disk dest body files) (healthy.creates dir)
      ∙ fs_write-healthy dest (disk.write dest) (healthy.writes dest)

  pub write_malformed-healthy :
      IsHealthy disk
      → (unix_millis : ℕ)
      → write_malformed disk unix_millis body files
        ≡ (insert (malformed_path unix_millis) body files, none)
  unfolding write_malformed
  write_malformed-healthy healthy unix_millis = write_below-healthy healthy _ _

  pub write_verbatim-healthy :
      IsHealthy disk
      → (rel_path : Text)
      → write_verbatim disk rel_path body files ≡ (insert rel_path body files, none)
  unfolding write_verbatim
  write_verbatim-healthy healthy rel_path = by_parent (disk.parent rel_path)
    where
      by_parent :
          (p : Option Text)
          → elim p [
            | some parent ↦ write_below disk rel_path body files (disk.create_dir_all parent)
            | none ↦ fs_write rel_path body files (disk.write rel_path)
          ]
            ≡ (insert rel_path body files, none)
      by_parent none = fs_write-healthy rel_path (disk.write rel_path) (healthy.writes rel_path)
      by_parent (some parent) = write_below-healthy healthy rel_path parent

  module _ (p : Text) where
    fs_write_elsewhere :
        (dest : Text) (w : Write)
        → dest ≢ p
        → lookup p (fs_write dest body files w).0 ≡ lookup p files
    fs_write_elsewhere dest whole away = insert_other dest p body files away
    fs_write_elsewhere dest (failed e (some left)) away = insert_other dest p left files away
    fs_write_elsewhere dest (failed e none) away = refl

    write_below_elsewhere :
        (dest : Text) (e : Option Text)
        → dest ≢ p
        → lookup p (write_below disk dest body files e).0 ≡ lookup p files
    write_below_elsewhere dest none away = fs_write_elsewhere dest (disk.write dest) away
    write_below_elsewhere dest (some e) away = refl

    pub write_malformed_elsewhere :
        (unix_millis : ℕ)
        → malformed_path unix_millis ≢ p
        → lookup p (write_malformed disk unix_millis body files).0 ≡ lookup p files
    unfolding write_malformed
    write_malformed_elsewhere unix_millis away = write_below_elsewhere _ _ away

    pub write_verbatim_elsewhere :
        (rel_path : Text)
        → rel_path ≢ p
        → lookup p (write_verbatim disk rel_path body files).0 ≡ lookup p files
    unfolding write_verbatim
    write_verbatim_elsewhere rel_path away = by_parent (disk.parent rel_path)
      where
        by_parent :
            (o : Option Text)
            → lookup p
                (elim o as (λ _. Written) [
                  | some parent ↦ write_below disk rel_path body files (disk.create_dir_all parent)
                  | none ↦ fs_write rel_path body files (disk.write rel_path)
                ]).0
              ≡ lookup p files
        by_parent none = fs_write_elsewhere rel_path (disk.write rel_path) away
        by_parent (some parent) = write_below_elsewhere rel_path (disk.create_dir_all parent) away
