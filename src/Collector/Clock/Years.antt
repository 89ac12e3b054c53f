-- ===== src/Collector/Clock/Years.antt =====
-- The Gregorian calendar by its rules, and the years of an era, each from March on.
use windows_fileserver_heatm.Prelude.{
  ℕ, zero, suc, ◌+◌, ◌-◌, ◌*◌, ◌/◌, ◌<◌, ◌≤◌, ◌≡◌, Bool, not, ◌&&◌, ◌||◌, arith, if◌then◌else◌, ltb,
}
use windows_fileserver_heatm.Prelude.Int.{ℤ, pos, ◌+ℤ◌}
use windows_fileserver_heatm.Prelude.Order.{nat_ord, ◌==◌}
use windows_fileserver_heatm.Collector.Clock.{rem_euclid, year_of_era, day_of_year}

-- Every fourth year is a leap year, of the hundreds every fourth.
abbrev pub is_leap : ℤ → Bool
is_leap y = rem_euclid y 4 == 0 && (not (rem_euclid y 100 == 0) || rem_euclid y 400 == 0)

abbrev pub month_length : Bool → ℕ → ℕ
month_length leap m =
    if m == 2
    then (if leap then 29 else 28)
    else if m == 4 || m == 6 || m == 9 || m == 11
    then 30
    else 31

-- The day after a day of a year that is leap or not: how many years later, the month and the day.
abbrev pub next_in : Bool → ℕ × ℕ → ℕ × ℕ × ℕ
next_in leap (m, d) =
    if ltb d (month_length leap m)
    then (0, m, d + 1)
    else if ltb m 12
    then (0, m + 1, 1)
    else (1, 1, 1)

abbrev pub next_day : ℤ × ℕ × ℕ → ℤ × ℕ × ℕ
next_day (y, m, d) = let (later, n, e) = next_in (is_leap y) (m, d) in (y +ℤ pos later, n, e)

abbrev pub days_after : ℕ → ℤ × ℕ × ℕ → ℤ × ℕ × ℕ
days_after zero date = date
days_after (suc n) date = next_day (days_after n date)

-- The years before a year of an era, in days.
abbrev pub start : ℕ → ℕ
start y = 365 * y + y / 4 - y / 100

-- A year from March on has its leap day at its end.
abbrev pub leap_day : ℕ → ℕ
leap_day y = if is_leap (pos (y + 1)) then 1 else 0

pub start_next : (y : ℕ) → y < 399 → start (y + 1) ≡ start y + 365 + leap_day y
start_next y h = ground arith

pub in_year : (doe : ℕ) → doe < 146_097 → (start (year_of_era doe) ≤ doe) × (year_of_era doe < 400)
in_year doe h = (omega arith, omega arith)

pub before_next : (doe : ℕ) → doe < 146_096 → doe < start (year_of_era doe + 1)
before_next doe h = omega arith

pub year_unique :
    (doe y : ℕ)
    → doe < 146_097
    → y < 400
    → start y ≤ doe
    → doe < start y + 365 + leap_day y
    → year_of_era doe ≡ y
year_unique doe y h k low high = ground arith

-- The days of a year follow each other, and then the next year begins.
pub same_year :
    (doe : ℕ)
    → doe + 1 < 146_097
    → day_of_year doe < 364 + leap_day (year_of_era doe)
    → (year_of_era (doe + 1) ≡ year_of_era doe) × (day_of_year (doe + 1) ≡ day_of_year doe + 1)
same_year doe h more =
    let (low, small) = in_year doe (omega arith) in
    let same = year_unique (doe + 1) (year_of_era doe) h small (omega arith) (omega arith) in
    (same, rw same (omega arith))

pub year_end :
    (doe : ℕ)
    → doe + 1 < 146_097
    → day_of_year doe ≡ 364 + leap_day (year_of_era doe)
    → (year_of_era (doe + 1) ≡ year_of_era doe + 1) × (day_of_year (doe + 1) ≡ 0)
year_end doe h last =
    let (low, small) = in_year doe (omega arith) in
    let fits : year_of_era doe < 399 = ground arith in
    let begins = start_next (year_of_era doe) fits in
    let next =
      year_unique (doe + 1) (year_of_era doe + 1) h (omega arith) (omega arith) (omega arith) in
    (next, rw next (omega arith))

pub day_bound : (doe : ℕ) → doe < 146_097 → day_of_year doe ≤ 364 + leap_day (year_of_era doe)
day_bound doe h = ground arith
