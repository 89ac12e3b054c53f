-- ===== src/Tests/Database.antt =====
-- The database with an engine that takes every text as it is.
use windows_fileserver_heatm.Prelude.{ℕ, ◌^◌, ◌≡◌, refl, some, [], ◌∷◌, false, arith}
use windows_fileserver_heatm.Prelude.Order.{nat_ord, int_ord, pair_ord, list_ord}
use windows_fileserver_heatm.Prelude.Int.{ℤ, pos}
use windows_fileserver_heatm.Prelude.Map.{lookup, insert, modify}
use windows_fileserver_heatm.Prelude.Text.{Text, text, split_once}
use windows_fileserver_heatm.Prelude.Result.{ok}
use windows_fileserver_heatm.Collector.Ingest.{Header, DumpRow}
use windows_fileserver_heatm.Collector.Db.{
  Store, empty_store, Engine, accepted, dedupe_noop, ingest, FileKey, FileRow, RunRow,
  strip_utc_suffix, gate, apply_dump, ingest_rows, ingest_row, upsert_dimension, upsert_found,
  put_fact,
}
use windows_fileserver_heatm.Collector.Db.Files.{IsWellFormed, fact, last_write}
use windows_fileserver_heatm.Collector.Db.Facts.{ingest-facts}
use windows_fileserver_heatm.Collector.Db.Runs.{
  RunWritten, ingest_again, ingest_wrapped, ingest-runs,
}

abbrev pub plain_engine : Engine
plain_engine = record { uuid = λ s. ok s; timestamp = λ s. ok s; integer = λ n. ok n }

abbrev pub dump : ℕ → Header
dump seq = record {
  server = text "fs1";
  run_id = text "r";
  dump_seq = seq;
  emitted_at = some (text "2026-06-10T00:00:00Z");
}

abbrev pub one_row : ℕ → DumpRow
one_row reads = record {
  share = text "docs";
  path = text "a";
  day = pos 3;
  reads = reads;
  writes = 0;
  alloc_bytes = some 4096;
  flags = [];
}

-- A store with one file, one run and one fact.
abbrev store_at : ℕ → ℕ → Store
store_at seq reads = record {
  next_id = 2;
  files =
      (
        (text "fs1", (text "docs", text "a")),
        record {
          file_id = 1;
          alloc_bytes = some (pos 4096);
          restat = false;
          unresolved_share = false;
          first_seen = text "2026-06-10T00:00:00";
          last_seen = text "2026-06-10T00:00:00";
        },
      )
      ∷ [];
  runs =
      (
        text "r",
        record {
          server = text "fs1";
          started_at = text "2026-06-10T00:00:00";
          last_dump_seq = pos seq;
          last_dump_at = text "2026-06-10T00:00:00";
        },
      )
      ∷ [];
  day_counts = ((1, (text "r", pos 3)), (reads, 0)) ∷ [];
}

-- The store after a dump with two rows of one file and day, and after another dump.
abbrev pub after_one : Store
after_one = store_at 1 7

abbrev after_two : Store
after_two = store_at 2 9

time_ok : strip_utc_suffix (text "2026-06-10T00:00:00Z") ≡ some (text "2026-06-10T00:00:00")
unfolding strip_utc_suffix split_once
time_ok = refl

pub first_dump :
    ingest plain_engine empty_store (dump 1) (one_row 5 ∷ one_row 7 ∷ []) ≡ ok (after_one, accepted)
unfolding ingest gate apply_dump ingest_rows ingest_row upsert_dimension upsert_found put_fact
    strip_utc_suffix split_once insert modify lookup
first_dump = refl

pub empty_store-IsWellFormed : IsWellFormed empty_store
unfolding lookup
empty_store-IsWellFormed = record {
  id_bound = λ k f h. absurd (cc);
  id_unique = λ j k f g h h' same. absurd (cc);
  fact_bound = λ k c h. absurd (cc);
}

ingest-facts_example :
    IsWellFormed after_one
    × ((k : FileKey) (r : Text) (day : ℤ)
        → fact after_one k r day
          ≡ last_write
              (text "fs1")
              (text "r")
              (one_row 5 ∷ one_row 7 ∷ [])
              k
              r
              day
              (fact empty_store k r day))
ingest-facts_example =
    ingest-facts plain_engine empty_store after_one (dump 1) (one_row 5 ∷ one_row 7 ∷ []) (text "r")
      (λ n m h. ground arith) empty_store-IsWellFormed refl first_dump

ingest_again_example :
    ingest plain_engine after_one (dump 1) (one_row 9 ∷ []) ≡ ok (after_one, dedupe_noop)
ingest_again_example =
    ingest_again plain_engine empty_store after_one (dump 1) (dump 1) (one_row 5 ∷ one_row 7 ∷ [])
      (one_row 9 ∷ []) (text "r") (text "2026-06-10T00:00:00Z") (text "2026-06-10T00:00:00") refl
      first_dump refl refl time_ok (omega arith)

abbrev the_run : RunRow
the_run = record {
  server = text "fs1";
  started_at = text "2026-06-10T00:00:00";
  last_dump_seq = pos 1;
  last_dump_at = text "2026-06-10T00:00:00";
}

known_run : lookup (text "r") after_one.runs ≡ some the_run
unfolding lookup
known_run = refl

ingest_wrapped_example :
    ingest plain_engine after_one (dump (2 ^ 31)) (one_row 9 ∷ []) ≡ ok (after_one, dedupe_noop)
unfolding lookup
ingest_wrapped_example =
    ingest_wrapped plain_engine after_one (dump (2 ^ 31)) (one_row 9 ∷ []) (text "r")
      (text "2026-06-10T00:00:00Z") (text "2026-06-10T00:00:00") the_run refl time_ok refl known_run
      (omega arith) (omega arith) (omega arith)

ingest-runs_example : RunWritten plain_engine empty_store after_one (dump 1) (text "r")
ingest-runs_example =
    ingest-runs plain_engine empty_store after_one (dump 1) (one_row 5 ∷ one_row 7 ∷ []) (text "r")
      refl first_dump

second_dump : ingest plain_engine after_one (dump 2) (one_row 9 ∷ []) ≡ ok (after_two, accepted)
unfolding ingest gate apply_dump ingest_rows ingest_row upsert_dimension upsert_found put_fact
    strip_utc_suffix split_once insert modify lookup
second_dump = refl

abbrev pub the_file : FileRow
the_file = record {
  file_id = 1;
  alloc_bytes = some (pos 4096);
  restat = false;
  unresolved_share = false;
  first_seen = text "2026-06-10T00:00:00";
  last_seen = text "2026-06-10T00:00:00";
}

abbrev pub the_key : FileKey
the_key = (text "fs1", (text "docs", text "a"))

pub known_file : lookup {K = FileKey} the_key after_one.files ≡ some the_file
unfolding lookup
known_file = refl
