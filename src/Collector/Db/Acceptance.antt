-- ===== src/Collector/Db/Acceptance.antt =====
-- When the database accepts a dump.
use windows_fileserver_heatm.Prelude.{ℕ, ◌^◌, ◌<◌, ◌≡◌, refl, some, List, [], ◌∷◌, false}
use windows_fileserver_heatm.Prelude.Lists.{All}
use windows_fileserver_heatm.Prelude.Order.{nat_ord, list_ord}
use windows_fileserver_heatm.Prelude.Map.{lookup}
use windows_fileserver_heatm.Prelude.Text.{Text}
use windows_fileserver_heatm.Prelude.Result.{ok}
use windows_fileserver_heatm.Collector.Ingest.{Header, DumpRow}
use windows_fileserver_heatm.Collector.Db.{
  Store, Engine, accepted, strip_utc_suffix, upsert_dimension, ingest_row, ingest_rows, apply_dump,
  gate, ingest, already_applied,
}

module _ (engine : Engine) where
  -- An INTEGER column takes what 31 bits hold.
  abbrev pub TakesCounts : Type 0
  TakesCounts = (n : ℕ) → n < 2 ^ 31 → engine.integer n ≡ ok n

  abbrev pub HasSmallCounts : DumpRow → Type 0
  HasSmallCounts row = (row.reads < 2 ^ 31) × (row.writes < 2 ^ 31)

  -- The engine reads the run's id and the time of a dump, and its counts fit.
  pub record IsStorable (header : Header) (rows : List DumpRow) (run : Text) : Type 0 where
    pub time : Text
    pub ts : Text
    pub at : Text
    pub run_eq : engine.uuid header.run_id ≡ ok run
    pub time_eq : header.emitted_at ≡ some time
    pub ts_eq : strip_utc_suffix time ≡ some ts
    pub at_eq : engine.timestamp ts ≡ ok at
    pub counts : All HasSmallCounts rows

  ingest_row_accepts :
      (server run ts at : Text) (row : DumpRow) (before : Store)
      → TakesCounts
      → engine.timestamp ts ≡ ok at
      → HasSmallCounts row
      → (after : Store) × (ingest_row engine server run ts row before ≡ ok after)
  unfolding ingest_row upsert_dimension
  ingest_row_accepts server run ts at row before takes at_eq small =
      rw (at_eq, takes row.reads small.0, takes row.writes small.1) (_, refl)

  ingest_rows_accepts :
      (server run ts at : Text) (rows : List DumpRow) (before : Store)
      → TakesCounts
      → engine.timestamp ts ≡ ok at
      → All HasSmallCounts rows
      → (after : Store) × (ingest_rows engine server run ts rows before ≡ ok after)
  unfolding ingest_rows
  ingest_rows_accepts server run ts at [] before takes at_eq small = (before, refl)
  ingest_rows_accepts server run ts at (row ∷ rows) before takes at_eq small =
      let (mid, e) = ingest_row_accepts server run ts at row before takes at_eq small.0 in
      let (after, rest) = ingest_rows_accepts server run ts at rows mid takes at_eq small.1 in
      (after, rw e rest)

  -- A dump that is storable, and newer than what its run has, is accepted: no row of it is refused.
  pub ingest_accepts :
      (before : Store) (header : Header) (rows : List DumpRow) (run : Text)
      → TakesCounts
      → IsStorable header rows run
      → already_applied header (lookup run before.runs) ≡ false
      → (after : Store) × (ingest engine before header rows ≡ ok (after, accepted))
  unfolding ingest gate apply_dump
  ingest_accepts before header rows run takes s newer =
      let (mid, applied) =
        ingest_rows_accepts header.server run s.ts s.at rows before takes s.at_eq s.counts in
      rw (s.time_eq, ingest)
        (rw (s.ts_eq, s.run_eq) (rw (newer, gate) (rw (applied, s.at_eq) (_, refl))))
