-- ===== src/Collector/Clock/Months.antt =====
-- The months of a year from March on: every day of it but the last two, checked one by one.
use mathlib.Core.Path.{subst}
use windows_fileserver_heatm.Prelude.{
  ℕ, zero, suc, ◌+◌, ◌<◌, ◌≤◌, ◌≡◌, refl, Bool, true, false, ◌&&◌, arith, if◌then◌else◌, leb,
  &&-true, Bool-cases, inl, inr,
}
use windows_fileserver_heatm.Prelude.Order.{nat_ord, ◌==◌, ==_iff}
use windows_fileserver_heatm.Collector.Clock.{month_and_day}
use windows_fileserver_heatm.Collector.Clock.Years.{next_in}

-- Every day of a year but its last two, and both kinds of year: the next day is in the same year, or
-- the first of January.
abbrev pub january : ℕ → ℕ
january m = if leb m 2 then 1 else 0

abbrev pub follows : Bool → ℕ → Bool
follows leap doy =
    let (m, d) = month_and_day doy in
    let (n, e) = month_and_day (doy + 1) in
    let (later, k, f) = next_in leap (m, d) in january m + later == january n && k == n && f == e

abbrev pub all_follow : ℕ → ℕ → Bool
all_follow zero doy = true
all_follow (suc k) doy = follows true doy && (follows false doy && all_follow k (doy + 1))

pub checked : all_follow 364 0 ≡ true
checked = refl

pub both_kinds :
    (doy : ℕ)
    → follows true doy ≡ true
    → follows false doy ≡ true
    → (leap : Bool) → follows leap doy ≡ true
both_kinds doy t f true = t
both_kinds doy t f false = f

pub follow_at :
    (k a doy : ℕ)
    → all_follow k a ≡ true
    → a ≤ doy
    → doy < a + k
    → (leap : Bool) → follows leap doy ≡ true
follow_at zero a doy h low high leap = absurd (omega arith)
follow_at (suc k) a doy h low high leap =
    let (in_leap, more) = &&-true (follows true a) (follows false a && all_follow k (a + 1)) h in
    let (in_plain, rest) = &&-true (follows false a) (all_follow k (a + 1)) more in
    elim (Bool-cases (a == doy)) [
      | inl same ↦
          subst (λ x. follows leap x ≡ true) ((==_iff a doy).0 same)
            (both_kinds a in_leap in_plain leap)
      | inr other ↦ follow_at k (a + 1) doy rest (ground (arith, other)) (omega arith) leap
    ]
