-- ===== src/Collector/Db/Files.antt =====
-- What the tables say: the facts of a file, which rows are about them, and the consistency of ids.
use windows_fileserver_heatm.Prelude.{
  ℕ, ◌<◌, ◌≡◌, Option, none, some, List, [], ◌∷◌, Bool, ◌&&◌, if◌then◌else◌,
}
use windows_fileserver_heatm.Prelude.Int.{ℤ}
use windows_fileserver_heatm.Prelude.Order.{nat_ord, int_ord, pair_ord, list_ord, ◌==◌}
use windows_fileserver_heatm.Prelude.Map.{Map, lookup}
use windows_fileserver_heatm.Prelude.Text.{Text}
use windows_fileserver_heatm.Collector.Ingest.{DumpRow}
use windows_fileserver_heatm.Collector.Db.{Store, FileKey, FactKey, FileRow}

-- The file ids are below the next one and no two keys share one; no fact stands under an id that
-- is not given out yet.
pub record IsWellFormed (db : Store) : Type 0 where
  pub id_bound :
      (k : FileKey) (f : FileRow)
      → lookup {K = FileKey} k db.files ≡ some f
      → f.file_id < db.next_id
  pub id_unique :
      (j k : FileKey) (f g : FileRow)
      → lookup {K = FileKey} j db.files ≡ some f
      → lookup {K = FileKey} k db.files ≡ some g
      → f.file_id ≡ g.file_id
      → j ≡ k
  pub fact_bound :
      (k : FactKey) (c : ℕ × ℕ) → lookup {K = FactKey} k db.day_counts ≡ some c → k.0 < db.next_id

-- The counts of a file on a day of a run, found through the file's id.
abbrev pub fact_of : Option FileRow → Text → ℤ → Map FactKey (ℕ × ℕ) → Option (ℕ × ℕ)
fact_of none run day facts = none
fact_of (some f) run day facts = lookup {K = FactKey} (f.file_id, (run, day)) facts

abbrev pub fact : Store → FileKey → Text → ℤ → Option (ℕ × ℕ)
fact db k run day = fact_of (lookup {K = FileKey} k db.files) run day db.day_counts

-- Is the row about this file and day of this run?
abbrev pub is_about : Text → Text → DumpRow → FileKey → Text → ℤ → Bool
is_about server run row k r day =
    ◌==◌ {K = FileKey} (server, (row.share, row.path)) k && run == r && row.day == day

-- The counts of the last row about the file and day, or the earlier value.
unfoldable pub last_write :
    Text → Text → List DumpRow → FileKey → Text → ℤ → Option (ℕ × ℕ) → Option (ℕ × ℕ)
last_write server run [] k r day before = before
last_write server run (row ∷ rows) k r day before =
    last_write server run rows k r day
      (if is_about server run row k r day then some (row.reads, row.writes) else before)

-- After an upsert.
pub record Upserted (before after : Store) (key : FileKey) (id : ℕ) : Type 0 where
  pub well_formed : IsWellFormed after
  pub found : (f : FileRow) × (lookup {K = FileKey} key after.files ≡ some f) × (f.file_id ≡ id)
  pub same_facts :
      (k : FileKey) (run : Text) (day : ℤ) → fact after k run day ≡ fact before k run day
