-- ===== src/Collector/Clock.antt =====
-- collector/src/main.rs: the civil date of a day number, and the text of an instant. Days are at most
-- 2 ^ 63 / 86400 in absolute value, so that no sum here leaves `i64`.
pub mod Years
pub mod Months
pub mod Calendar
use windows_fileserver_heatm.Prelude.{
  ℕ, suc, ◌+◌, ◌-◌, ◌*◌, ◌/◌, ◌%◌, [], ◌∷◌, if◌then◌else◌, ltb, leb,
}
use windows_fileserver_heatm.Prelude.Int.{ℤ, pos, negsuc, pos_part, sub_ℕ, quot, leb_ℤ, ◌+ℤ◌, ◌-ℤ◌}
use windows_fileserver_heatm.Prelude.Text.{Text, text, cat, decimal, pad_left}

-- `i64::div_euclid` and `rem_euclid` by a positive number.
abbrev pub div_euclid : ℤ → ℕ → ℤ
div_euclid (pos n) d = pos (n / d)
div_euclid (negsuc n) d = negsuc (n / d)

abbrev pub rem_euclid : ℤ → ℕ → ℕ
rem_euclid (pos n) d = n % d
rem_euclid (negsuc n) d = d - 1 - n % d

-- The product with a positive number.
abbrev pub mul_ℕ : ℤ → ℕ → ℤ
mul_ℕ (pos n) k = pos (n * k)
mul_ℕ (negsuc n) k = sub_ℕ 0 (suc n * k)

-- The year of an era that a day of it falls into, and the day of that year, both from March on.
abbrev pub year_of_era : ℕ → ℕ
year_of_era doe = (doe - doe / 1460 + doe / 36_524 - doe / 146_096) / 365

abbrev pub day_of_year : ℕ → ℕ
day_of_year doe = let yoe = year_of_era doe in doe - (365 * yoe + yoe / 4 - yoe / 100)

-- The month and the day of a day of the year.
abbrev pub month_and_day : ℕ → ℕ × ℕ
month_and_day doy =
    let mp = (5 * doy + 2) / 153 in
    (if ltb mp 10 then mp + 3 else mp - 9, doy - (153 * mp + 2) / 5 + 1)

-- The era of a day since the first of March of the year 0.
abbrev pub era_of : ℤ → ℤ
era_of z = quot (if leb_ℤ (pos 0) z then z else z -ℤ pos 146_096) 146_097

-- The date of a day of an era.
unfoldable pub civil_of : ℤ → ℕ → ℤ × ℕ × ℕ
civil_of era doe =
    let y = pos (year_of_era doe) +ℤ mul_ℕ era 400 in
    let (m, d) = month_and_day (day_of_year doe) in (if leb m 2 then y +ℤ pos 1 else y, m, d)

unfoldable pub civil_from_days : ℤ → ℤ × ℕ × ℕ
civil_from_days days =
    let z = days +ℤ pos 719_468 in
    let era = era_of z in civil_of era (pos_part (z -ℤ mul_ℕ era 146_097))

-- `{:0w}`: the zeros stand behind the sign, which counts.
abbrev pub zero_pad : ℕ → ℕ → Text
zero_pad w n = pad_left b'0' w (decimal n)

abbrev pub zero_pad_ℤ : ℕ → ℤ → Text
zero_pad_ℤ w (pos n) = zero_pad w n
zero_pad_ℤ w (negsuc n) = b'-' ∷ zero_pad (w - 1) (suc n)

unfoldable pub rfc3339_utc : ℤ → Text
rfc3339_utc secs =
    let sod = rem_euclid secs 86_400 in
    let (y, m, d) = civil_from_days (div_euclid secs 86_400) in
    cat (
      zero_pad_ℤ 4 y
      ∷ text "-"
      ∷ zero_pad 2 m
      ∷ text "-"
      ∷ zero_pad 2 d
      ∷ text "T"
      ∷ zero_pad 2 (sod / 3600)
      ∷ text ":"
      ∷ zero_pad 2 (sod % 3600 / 60)
      ∷ text ":"
      ∷ zero_pad 2 (sod % 60)
      ∷ text "Z"
      ∷ [])
