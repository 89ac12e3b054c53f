-- ===== src/Tests/Startup.antt =====
-- How the collector starts, and what the flusher says of its sinks.
use windows_fileserver_heatm.Prelude.{◌≡◌, refl, none, some, [], ◌∷◌, ◌++◌}
use windows_fileserver_heatm.Prelude.Int.{pos}
use windows_fileserver_heatm.Prelude.Result.{ok, err}
use windows_fileserver_heatm.Prelude.Text.{text, decimal}
use windows_fileserver_heatm.Agent.Flusher.Sinks.{
  Sinks, new_collector, write_emit_dir, post_collector,
}
use windows_fileserver_heatm.Collector.Options.{
  parse_value, find_value, parse_bind, parse_archive_dir, parse_db, parse_tier_log,
}
use windows_fileserver_heatm.Collector.Server.Startup.{Environment, parse_config, open_db, main}

-- The address is taken, and there is no database file.
abbrev busy : Environment
busy = record {
  connect = λ path. some (text "no such file");
  execute_ddl = λ path. none;
  version = λ path. ok (text "v1.1.3");
  bind = λ address. some (text "in use");
  create_dir_all = λ dir. none;
  append = λ line. none;
  file_name = λ path. none;
  now_secs = pos 0;
}

-- The database is opened before the address is bound.
db_first :
    main busy (text "collector" ∷ text "--db" ∷ text "x" ∷ [])
    ≡ err (record { line = text "failed to open db x: no such file"; code = 1 })
unfolding main parse_config open_db parse_bind parse_archive_dir parse_db parse_tier_log parse_value
    find_value
db_first = refl

address_in_use :
    main busy (text "collector" ∷ [])
    ≡ err (record { line = text "failed to bind 0.0.0.0:2742: in use"; code = 1 })
unfolding main parse_config open_db parse_bind parse_archive_dir parse_db parse_tier_log parse_value
    find_value
address_in_use = refl

flag_without_value :
    main busy (text "collector" ∷ text "--bind" ∷ [])
    ≡ err (record { line = text "--bind needs a value"; code = 2 })
unfolding main parse_config open_db parse_bind parse_archive_dir parse_db parse_tier_log parse_value
    find_value
flag_without_value = refl

abbrev broken : Sinks
broken = record {
  create_dir_all = λ dir. none;
  join = λ dir name. dir ++ b'\\' ∷ name;
  write = λ path doc. some (text "disk full");
  post = λ c doc. ok 200;
  computer_name = some (text "FS1");
}

disk_full :
    write_emit_dir broken (some (text "d")) (text "0123456789") 3 []
    ≡ text "emit: failed to write d\\01234567-3.ndjson: disk full" ∷ []
unfolding write_emit_dir decimal
disk_full = refl

posted_well :
    post_collector broken (some (new_collector (text "http://c/ingest"))) 3 []
    ≡ text "emit: POST dump_seq=3 -> 200" ∷ []
unfolding post_collector decimal
posted_well = refl
