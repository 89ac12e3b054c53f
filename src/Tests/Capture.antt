-- ===== src/Tests/Capture.antt =====
-- A capture of one event that is told to stop, and an agent that walks one share.
use windows_fileserver_heatm.Prelude.{
  ◌≡◌, refl, none, some, List, [], ◌∷◌, ◌++◌, false, count, ◌%◌, ◌^◌, true, ◌↔◌, ◌*◌, ◌+◌, ℕ,
}
use windows_fileserver_heatm.Prelude.Int.{ℤ, pos}
use windows_fileserver_heatm.Prelude.Text.{text}
use mathlib.Core.WellFounded.{Acc}
use windows_fileserver_heatm.Agent.Events.{
  Parser, SmbEvent, tree_connect, guid_key, from_be_bytes, parse_event, first_guid, first_str,
}
use windows_fileserver_heatm.Agent.Emit.{Serializer}
use windows_fileserver_heatm.Agent.Flusher.{stop, flush}
use windows_fileserver_heatm.Agent.Correlation.{load_inventory, run_trace, apply}
use windows_fileserver_heatm.Agent.Correlation.Naming.{is_data_open}
use windows_fileserver_heatm.Agent.Session.{EventRecord, timed_event, on_event}
use windows_fileserver_heatm.Agent.Session.Steps.{
  Session, session_start, loaded, handled, woken, send, ended, event, finish, wake, Run, done,
  later,
}
use windows_fileserver_heatm.Agent.Session.Outputs.{Shows, unnumbered}
use windows_fileserver_heatm.Agent.Session.Safety.{EndsWith}
use windows_fileserver_heatm.Agent.Session.Numbers.{IsNumbered}
use windows_fileserver_heatm.Agent.Session.Shutdown.{After, final_flush, drains}
use windows_fileserver_heatm.Agent.Session.Trips.{on_event-trip}
use windows_fileserver_heatm.Tests.Agent.{ascii_platform}

abbrev no_json : Serializer
no_json l = none

-- A record of a tree connect.
abbrev connect_parser : Parser
connect_parser = record {
  parse_string = λ n. some (text "docs");
  parse_guid = λ n. some (record { data1 = 0; data2 = 0; data3 = 0; data4 = [] });
  parse_u64 = λ n. none;
  parse_u32 = λ n. none;
  parse_u16 = λ n. none;
  parse_bytes = λ n. none;
}

abbrev connected : EventRecord
connected = record { event_id = 600; raw_timestamp = pos 0; parser = some connect_parser }

abbrev log : List (SmbEvent × ℤ)
log = (tree_connect 0 (text "docs"), pos 0) ∷ []

abbrev begun : Session
begun = session_start (text "fs1") (text "550e8400") [] [] false false

abbrev stopping : Session
stopping =
    send stop
      (record (handled ascii_platform no_json (timed_event connected) begun) { phase = ended })

event_seen : timed_event connected ≡ some (tree_connect 0 (text "docs"), pos 0)
unfolding timed_event parse_event first_guid first_str guid_key from_be_bytes
event_seen = refl

Run-stop : Run ascii_platform no_json begun log stopping
unfolding timed_event parse_event first_guid first_str guid_key from_be_bytes session_start
    load_inventory on_event apply
Run-stop = later (event connected refl) (later (finish refl) done)

Run-end : Run ascii_platform no_json begun log (woken ascii_platform no_json [] stopping)
unfolding timed_event parse_event first_guid first_str guid_key from_be_bytes session_start
    load_inventory on_event apply
Run-end = later (event connected refl) (later (finish refl) (later (wake [] refl) done))

gone : (woken ascii_platform no_json [] stopping).running ≡ false
unfolding woken timed_event parse_event first_guid first_str guid_key from_be_bytes session_start
    load_inventory on_event apply flush
gone = refl

final_flush_example :
    EndsWith
      (Shows ascii_platform no_json
        (unnumbered (session_start (text "fs1") (text "550e8400") [] [] false false).ctx)
        (run_trace ascii_platform log (loaded [] [])))
      (woken ascii_platform no_json [] stopping).flushed
    × IsNumbered (woken ascii_platform no_json [] stopping).flushed
final_flush_example =
    final_flush ascii_platform no_json (text "fs1") (text "550e8400") [] [] false false Run-end gone

drains_example :
    Acc (After ascii_platform no_json) stopping
    × ((t : Session) × (Run ascii_platform no_json stopping [] t × (t.running ≡ false)))
drains_example =
    drains ascii_platform no_json (text "fs1") (text "550e8400") [] [] false false Run-stop refl

on_event-trip_example :
    ((on_event ascii_platform
        (tree_connect 1 (text "x"), pos 0)
        (run_trace ascii_platform log (loaded [] []))).1.trip
      ≡ true)
    ↔ ((k : ℕ) × (count is_data_open (log ++ (tree_connect 1 (text "x"), pos 0) ∷ []) % 2 ^ 64
          ≡ (k + 1) * 1000))
on_event-trip_example = on_event-trip ascii_platform [] [] log (tree_connect 1 (text "x"), pos 0)
