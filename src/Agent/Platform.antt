-- ===== src/Agent/Platform.antt =====
-- What the agent takes from code that is not in the repository.
use windows_fileserver_heatm.Prelude.Int.{ℤ}
use windows_fileserver_heatm.Prelude.Text.{Text}

pub record Platform : Type 0 where
  -- `str::to_lowercase`, by the tables of Unicode.
  pub to_lowercase : Text → Text
  -- chrono and chrono-tz: seconds since the Unix epoch to the number of days from 1970-01-01 to
  -- the civil date in America/Chicago.
  pub chicago_day : ℤ → ℤ
