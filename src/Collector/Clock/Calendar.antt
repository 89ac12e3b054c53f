-- ===== src/Collector/Clock/Calendar.antt =====
-- The dates of the Gregorian calendar, one day after the other.
use mathlib.Core.Path.{subst}
use windows_fileserver_heatm.Prelude.{
  ℕ, zero, suc, ◌+◌, ◌*◌, ◌/◌, ◌%◌, ◌<◌, ◌≤◌, ◌≡◌, refl, sym, ap, ◌∙◌, Bool, true, false, ◌&&◌,
  arith, if◌then◌else◌, ltb, leb, Bool-cases, ltb→lt, inl, inr,
}
use windows_fileserver_heatm.Prelude.Int.{ℤ, pos, pos_part, ◌+ℤ◌, ◌-ℤ◌}
use windows_fileserver_heatm.Prelude.Order.{nat_ord, ◌==◌}
use windows_fileserver_heatm.Collector.Clock.{
  year_of_era, day_of_year, month_and_day, era_of, civil_of, civil_from_days,
}
use windows_fileserver_heatm.Collector.Clock.Years.{
  is_leap, next_in, next_day, days_after, leap_day, same_year, year_end, day_bound,
}
use windows_fileserver_heatm.Collector.Clock.Months.{january, checked, follow_at}

add_pos : (a b : ℕ) → pos a +ℤ pos b ≡ pos (a + b)
unfolding ◌+ℤ◌
add_pos a b = ground arith

leap_era : (y era : ℕ) → is_leap (pos (y + 400 * era)) ≡ is_leap (pos y)
leap_era y era = ground arith

-- The date of a day of a year of an era, and of a day of an era.
abbrev date_at : (era y doy : ℕ) → ℤ × ℕ × ℕ
date_at era y doy = let (m, d) = month_and_day doy in (pos (y + 400 * era + january m), m, d)

abbrev date : ℕ → ℕ → ℤ × ℕ × ℕ
date era doe = date_at era (year_of_era doe) (day_of_year doe)

civil_of-pos : (era doe : ℕ) → civil_of (pos era) doe ≡ date era doe
unfolding civil_of
civil_of-pos era doe =
    by_month (month_and_day (day_of_year doe)).0 (month_and_day (day_of_year doe)).1
  where
    year_for :
        (y era : ℕ) (b : Bool) (m d : ℕ)
        → ◌≡◌ {A = ℤ × ℕ × ℕ}
            (if b then pos (y + era * 400 + 1) else pos (y + era * 400), m, d)
            (pos (y + 400 * era + (if b then 1 else 0)), m, d)
    year_for y era b m d = ground arith

    by_month :
        (m d : ℕ)
        → ◌≡◌ {A = ℤ × ℕ × ℕ}
            (
              if leb m 2
                  then (pos (year_of_era doe) +ℤ pos (era * 400)) +ℤ pos 1
                  else pos (year_of_era doe) +ℤ pos (era * 400),
              m,
              d,
            )
            (pos (year_of_era doe + 400 * era + january m), m, d)
    by_month m d = rw (add_pos (year_of_era doe) (era * 400)) (
        rw (add_pos (year_of_era doe + era * 400) 1) (year_for (year_of_era doe) era (leb m 2) m d))

era_pos : (z : ℕ) → era_of (pos z) ≡ pos (z / 146_097)
era_pos z = ground arith

doe_pos : (z : ℕ) → pos_part (pos z -ℤ pos (z / 146_097 * 146_097)) ≡ z % 146_097
unfolding ◌-ℤ◌
doe_pos z = ground arith

civil_from_days-pos :
    (n : ℕ) → civil_from_days (pos n) ≡ date ((n + 719_468) / 146_097) ((n + 719_468) % 146_097)
unfolding civil_from_days
civil_from_days-pos n = rw (add_pos n 719_468) (
    rw (era_pos (n + 719_468)) (
      rw (doe_pos (n + 719_468))
        (civil_of-pos ((n + 719_468) / 146_097) ((n + 719_468) % 146_097))))

assemble :
    (y jm jn later k n f e : ℕ)
    → (jm + later == jn && k == n && f == e) ≡ true
    → ◌≡◌ {A = ℤ × ℕ × ℕ} (pos (y + jm) +ℤ pos later, k, f) (pos (y + jn), n, e)
assemble y jm jn later k n f e h = rw (add_pos (y + jm) later) (ground arith)

-- From one day of a year to the next, by what day of the year it is.
next_inside : (era y doy : ℕ) → doy < 364 → next_day (date_at era y doy) ≡ date_at era y (doy + 1)
next_inside era y doy h =
    let (m, d) = month_and_day doy in
    let (n, e) = month_and_day (doy + 1) in
    let next = next_in (is_leap (pos (y + 400 * era + january m))) (m, d) in
    assemble (y + 400 * era) (january m) (january n) next.0 next.1 n next.2 e (
      follow_at 364 0 doy checked (omega arith) (omega arith)
        (is_leap (pos (y + 400 * era + january m))))

leap_at : (era y : ℕ) → is_leap (pos (y + 400 * era + 1)) ≡ is_leap (pos (y + 1))
leap_at era y = ground arith

zero_later : (y : ℕ) → pos y +ℤ pos 0 ≡ pos y
zero_later y = add_pos y 0 ∙ ap pos (omega arith)

to_leap_day :
    (era y : ℕ) → is_leap (pos (y + 1)) ≡ true → next_day (date_at era y 364) ≡ date_at era y 365
to_leap_day era y h = rw (leap_at era y) (rw h (rw (zero_later (y + 400 * era + 1)) refl))

march : (era y : ℕ) → ◌≡◌ {A = ℤ × ℕ × ℕ} (pos (y + 400 * era + 1), 3, 1) (date_at era (y + 1) 0)
march era y = ground arith

after_plain :
    (era y : ℕ)
    → is_leap (pos (y + 1)) ≡ false
    → next_day (date_at era y 364) ≡ date_at era (y + 1) 0
after_plain era y h = rw (leap_at era y) (rw h (rw (zero_later (y + 400 * era + 1)) (march era y)))

after_leap :
    (era y : ℕ)
    → is_leap (pos (y + 1)) ≡ true
    → next_day (date_at era y 365) ≡ date_at era (y + 1) 0
after_leap era y h = rw (leap_at era y) (rw h (rw (zero_later (y + 400 * era + 1)) (march era y)))

at_cong : (era : ℕ) {y z doy dof : ℕ} → y ≡ z → doy ≡ dof → date_at era y doy ≡ date_at era z dof
at_cong era {y} {z} {doy} p q = ap (λ x. date_at era x doy) p ∙ ap (date_at era z) q

only_leap :
    (b : Bool) (doy : ℕ)
    → ltb doy 364 ≡ false
    → doy < 364 + (if b then 1 else 0)
    → (b ≡ true) × (doy ≡ 364)
only_leap true doy late more = (refl, ground arith)
only_leap false doy late more = absurd (ground arith)

inside_next :
    (era y doy : ℕ)
    → doy < 364 + leap_day y
    → next_day (date_at era y doy) ≡ date_at era y (doy + 1)
inside_next era y doy h = elim (Bool-cases (ltb doy 364)) [
  | inl early ↦ next_inside era y doy (ltb→lt doy 364 early)
  | inr late ↦
      let (leap, last) = only_leap (is_leap (pos (y + 1))) doy late h in
      subst (λ d. next_day (date_at era y d) ≡ date_at era y (d + 1)) (sym last)
        (to_leap_day era y leap)
]

end_next :
    (era y doy : ℕ) → doy ≡ 364 + leap_day y → next_day (date_at era y doy) ≡ date_at era (y + 1) 0
end_next era y doy h =
    subst (λ d. next_day (date_at era y d) ≡ date_at era (y + 1) 0) (sym h)
      (by_leap (is_leap (pos (y + 1))) refl)
  where
    by_leap :
        (b : Bool)
        → is_leap (pos (y + 1)) ≡ b
        → next_day (date_at era y (364 + (if b then 1 else 0))) ≡ date_at era (y + 1) 0
    by_leap true e = after_leap era y e
    by_leap false e = after_plain era y e

next_date : (era doe : ℕ) → doe + 1 < 146_097 → next_day (date era doe) ≡ date era (doe + 1)
next_date era doe h = elim (Bool-cases (ltb (day_of_year doe) (364 + leap_day (year_of_era doe)))) [
  | inl inside ↦
      let early = ltb→lt (day_of_year doe) (364 + leap_day (year_of_era doe)) inside in
      let (y, d) = same_year doe h early in
      inside_next era (year_of_era doe) (day_of_year doe) early ∙ sym (at_cong era y d)
  | inr outside ↦
      let last =
        at_bound (day_of_year doe) (364 + leap_day (year_of_era doe)) outside
          (day_bound doe (omega arith)) in
      let (y, d) = year_end doe h last in
      end_next era (year_of_era doe) (day_of_year doe) last ∙ sym (at_cong era y d)
]
  where
    at_bound : (a b : ℕ) → ltb a b ≡ false → a ≤ b → a ≡ b
    at_bound a b late h = ground arith

next_era : (era : ℕ) → next_day (date era 146_096) ≡ date (era + 1) 0
next_era era = after_leap era 399 refl ∙ ground_era era
  where
    ground_era : (era : ℕ) → date_at era 400 0 ≡ date_at (era + 1) 0 0
    ground_era era = ground arith

date_cong : {era f doe e : ℕ} → era ≡ f → doe ≡ e → date era doe ≡ date f e
date_cong {era} {f} {doe} p q = ap (λ x. date x doe) p ∙ ap (date f) q

next_within :
    (z : ℕ)
    → ltb (z % 146_097 + 1) 146_097 ≡ true
    → (z / 146_097 ≡ (z + 1) / 146_097) × (z % 146_097 + 1 ≡ (z + 1) % 146_097)
next_within z h = ground arith

next_beyond :
    (z : ℕ)
    → ltb (z % 146_097 + 1) 146_097 ≡ false
    → (z % 146_097 ≡ 146_096) × (z / 146_097 + 1 ≡ (z + 1) / 146_097) × (0 ≡ (z + 1) % 146_097)
next_beyond z h = ground arith

next_civil :
    (z : ℕ)
    → next_day (date (z / 146_097) (z % 146_097)) ≡ date ((z + 1) / 146_097) ((z + 1) % 146_097)
next_civil z = elim (Bool-cases (ltb (z % 146_097 + 1) 146_097)) [
  | inl inside ↦
      let (era, doe) = next_within z inside in
      next_date (z / 146_097) (z % 146_097) (ltb→lt (z % 146_097 + 1) 146_097 inside)
      ∙ date_cong era doe
  | inr outside ↦
      let (last, era, doe) = next_beyond z outside in
      ap (λ d. next_day (date (z / 146_097) d)) last ∙ next_era (z / 146_097) ∙ date_cong era doe
]

-- `civil_from_days` is the Gregorian calendar: day n from 1970-01-01 has the date that n steps to the
-- next day lead to.
pub civil_from_days_lem : (n : ℕ) → civil_from_days (pos n) ≡ days_after n (pos 1970, 1, 1)
civil_from_days_lem zero = civil_from_days-pos 0
civil_from_days_lem (suc n) =
    civil_from_days-pos (suc n)
    ∙ sym (
        date_cong {era = (n + 719_468 + 1) / 146_097} {doe = (n + 719_468 + 1) % 146_097}
          (omega arith) (omega arith))
    ∙ sym (next_civil (n + 719_468))
    ∙ ap next_day (sym (civil_from_days-pos n) ∙ civil_from_days_lem n)
