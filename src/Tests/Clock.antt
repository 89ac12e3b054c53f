-- ===== src/Tests/Clock.antt =====
-- Dates of the collector, among them the instants of the tests of collector/src/main.rs.
use windows_fileserver_heatm.Prelude.{◌≡◌, refl}
use windows_fileserver_heatm.Prelude.Int.{pos, negsuc, ◌+ℤ◌, ◌-ℤ◌}
use windows_fileserver_heatm.Prelude.Text.{text, decimal}
use windows_fileserver_heatm.Collector.Clock.{civil_of, civil_from_days, rfc3339_utc}
use windows_fileserver_heatm.Collector.Clock.Years.{days_after}
use windows_fileserver_heatm.Collector.Clock.Calendar.{civil_from_days_lem}

civil_from_days_lem_example : civil_from_days (pos 59) ≡ days_after 59 (pos 1970, 1, 1)
civil_from_days_lem_example = civil_from_days_lem 59

civil_59 : civil_from_days (pos 59) ≡ (pos 1970, 3, 1)
unfolding civil_from_days civil_of ◌+ℤ◌ ◌-ℤ◌
civil_59 = refl

civil_before : civil_from_days (negsuc 0) ≡ (pos 1969, 12, 31)
unfolding civil_from_days civil_of ◌+ℤ◌ ◌-ℤ◌
civil_before = refl

at_epoch : rfc3339_utc (pos 0) ≡ text "1970-01-01T00:00:00Z"
unfolding rfc3339_utc civil_from_days civil_of ◌+ℤ◌ ◌-ℤ◌ decimal
at_epoch = refl

at_known_instant : rfc3339_utc (pos 1_781_136_000) ≡ text "2026-06-11T00:00:00Z"
unfolding rfc3339_utc civil_from_days civil_of ◌+ℤ◌ ◌-ℤ◌ decimal
at_known_instant = refl
