-- ===== src/Tests/Archive.antt =====
-- A full disk while a dump of another run is posted, and the files of healthy ones.
use windows_fileserver_heatm.Prelude.{◌≡◌, ◌↔◌, refl, sym, some, none, [], ◌∷◌, take, ◌+◌, arith}
use mathlib.Core.Path.{subst}
use windows_fileserver_heatm.Prelude.Map.{lookup}
use windows_fileserver_heatm.Prelude.Order.{nat_ord, list_ord}
use windows_fileserver_heatm.Prelude.Result.{ok}
use windows_fileserver_heatm.Prelude.Text.{Text, text, split}
use windows_fileserver_heatm.Collector.Archive.{Disk, failed}
use windows_fileserver_heatm.Collector.Archive.Places.{dump_place}
use windows_fileserver_heatm.Collector.Ingest.{
  Header, validate_naming, is_valid_server, is_valid_uuid, archive_rel_path, classify,
}
use windows_fileserver_heatm.Collector.Ingest.Distinct.{SameFile, archive_rel_path_iff}
use windows_fileserver_heatm.Collector.Server.{Host, State, max_body}
use windows_fileserver_heatm.Collector.Server.Filing.{
  AreFiled, serve-AreFiled, IsOther, serve-archived,
}
use windows_fileserver_heatm.Collector.Server.Startup.{serve}
use windows_fileserver_heatm.Tests.Collector.{run_a}
use windows_fileserver_heatm.Tests.Database.{plain_engine}
use windows_fileserver_heatm.Tests.Series.{numbered_wire, other_dump, other_header, classified}
use windows_fileserver_heatm.Tests.Server.{quiet_host, quiet_disk-IsHealthy}

-- A write stops after two bytes.
abbrev full_disk : Disk
full_disk = record {
  parent = λ path. some (text "fs1");
  create_dir_all = λ dir. none;
  write = λ path. failed (text "disk full") (some (text "O7"));
}

abbrev full_host : Host
full_host = record quiet_host { disk = full_disk }

abbrev first_header : Header
first_header = record { server = text "fs1"; run_id = run_a; dump_seq = 1; emitted_at = none }

first_ok : validate_naming numbered_wire first_header ≡ ok tt
unfolding validate_naming is_valid_server is_valid_uuid split
first_ok = refl

other_ok : validate_naming numbered_wire other_header ≡ ok tt
unfolding validate_naming is_valid_server is_valid_uuid split
other_ok = refl

abbrev first_path : Text
first_path = dump_place first_header

abbrev one_file : State
one_file = record { archive = (first_path, text "H1") ∷ []; db = none }

archive_rel_path_iff_example :
    (archive_rel_path first_header.server first_header.run_id first_header.dump_seq
      ≡ archive_rel_path other_header.server other_header.run_id other_header.dump_seq)
    ↔ SameFile first_header other_header
archive_rel_path_iff_example =
    archive_rel_path_iff numbered_wire first_header other_header first_ok other_ok

is_other : IsOther first_header (classify numbered_wire (take (max_body + 1) other_dump.body))
is_other = subst (IsOther first_header) (sym classified) (λ same. absurd (omega (arith, same.2)))

serve-archived_example :
    lookup first_path
      (serve numbered_wire plain_engine ((full_host, other_dump) ∷ []) one_file).0.archive
    ≡ lookup first_path one_file.archive
serve-archived_example =
    serve-archived numbered_wire plain_engine ((full_host, other_dump) ∷ []) one_file first_header
      first_ok (is_other, tt)

abbrev no_files : State
no_files = record { archive = []; db = none }

serve-AreFiled_example :
    AreFiled numbered_wire
      (serve numbered_wire plain_engine ((quiet_host, other_dump) ∷ []) no_files).0.archive
serve-AreFiled_example =
    serve-AreFiled numbered_wire plain_engine ((quiet_host, other_dump) ∷ []) no_files
      (quiet_disk-IsHealthy, tt) tt
