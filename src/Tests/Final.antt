-- ===== src/Tests/Final.antt =====
-- Two flushes that both arrive, with an open without data access between them.
use windows_fileserver_heatm.Prelude.{◌≡◌, refl, some, none, List, [], ◌∷◌, arith}
use windows_fileserver_heatm.Prelude.Int.{ℤ, pos}
use windows_fileserver_heatm.Prelude.Map.{lookup}
use windows_fileserver_heatm.Prelude.Order.{nat_ord, list_ord}
use windows_fileserver_heatm.Prelude.Text.{text}
use windows_fileserver_heatm.Agent.Correlation.{
  classify_access, apply_open, apply, run_trace, resolve_name,
}
use windows_fileserver_heatm.Agent.Events.{open_file}
use windows_fileserver_heatm.Agent.Flusher.{flush}
use windows_fileserver_heatm.Collector.Db.{Store, FileKey, empty_store}
use windows_fileserver_heatm.Collector.Db.Files.{fact, last_write}
use windows_fileserver_heatm.EndToEnd.Final.{IsEarlier, last_flush_decides}
use windows_fileserver_heatm.EndToEnd.Series.{Attempt, AreDeliverable, rows_at, post_all}
use windows_fileserver_heatm.Tests.Agent.{ascii_platform}
use windows_fileserver_heatm.Tests.Collector.{run_a}
use windows_fileserver_heatm.Tests.Database.{plain_engine, empty_store-IsWellFormed}
use windows_fileserver_heatm.Tests.Delivery.{posting, before_post}
use windows_fileserver_heatm.Tests.Series.{
  numbered, numbered_wire, posts, skipping, first_dump_ok, second_dump_ok, others, others-IsForeign,
}
use windows_fileserver_heatm.Tests.Server.{quiet_host}

earlier : IsEarlier ascii_platform (skipping 0) (skipping 1)
unfolding run_trace apply apply_open classify_access resolve_name
earlier = record {
  log = (open_file 1 2 none (text "a") 128, pos 0) ∷ [];
  grown = refl;
  names = λ g. refl;
}

abbrev series : List Attempt
series = ([], skipping 0, some quiet_host) ∷ (others, skipping 1, some quiet_host) ∷ []

series_ok : AreDeliverable ascii_platform numbered numbered_wire plain_engine run_a posting series
unfolding flush
series_ok = (tt, first_dump_ok 0, (others-IsForeign, second_dump_ok 1, tt))

last_flush_decides_example :
    (after : Store) × ((post_all ascii_platform numbered numbered_wire plain_engine posting series
        before_post).0.db
      ≡ some after)
    × ((k : FileKey) (day : ℤ)
        → fact after k run_a day
          ≡ last_write
              (text "fs1")
              run_a
              (rows_at ascii_platform numbered numbered_wire plain_engine (skipping 1))
              k
              run_a
              day
              (fact empty_store k run_a day))
unfolding lookup
last_flush_decides_example =
    last_flush_decides ascii_platform numbered numbered_wire plain_engine run_a (λ n small. refl)
      (λ n m h. ground arith) posting (([], skipping 0, some quiet_host) ∷ []) others (skipping 1)
      quiet_host before_post empty_store posts (omega arith) (omega arith) series_ok (earlier, tt)
      refl empty_store-IsWellFormed tt
