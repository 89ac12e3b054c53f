-- ===== src/Collector/Archive/Places.antt =====
-- The layout of the archive: `<server>/<first eight bytes of the run's id>-<number>.ndjson` for a
-- dump, and `_malformed/<milliseconds>.ndjson` for what is no dump.
use windows_fileserver_heatm.Prelude.{ℕ, ◌++◌, take}
use windows_fileserver_heatm.Prelude.Text.{Text, text, decimal}
use windows_fileserver_heatm.Collector.Ingest.{Header, Disposition, malformed, rejected, accepted}

abbrev pub dump_place : Header → Text
dump_place h =
    h.server
    ++ (text "/" ++ (take 8 h.run_id ++ (text "-" ++ (decimal h.dump_seq ++ text ".ndjson"))))

abbrev pub place_of : ℕ → Disposition → Text
place_of millis (malformed reason) = text "_malformed/" ++ (decimal millis ++ text ".ndjson")
place_of millis (rejected header reason) = dump_place header
place_of millis (accepted header rows) = dump_place header
