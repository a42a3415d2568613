-- ===== src/Dashboard/Period/Contains.antt =====
-- A period contains the instant at which it is asked for.
use python_vs_go_pos_benchma.Prelude.{
  ℕ, zero, suc, ◌+◌, ◌-◌, ◌*◌, ap, ◌≡◌, ◌≤◌, ◌<◌, inl, inr, arith, Bool-cases, ◌==◌, ==_iff, String,
  str_eq,
}
use python_vs_go_pos_benchma.Errors.{Result, ok, err, failure}
use python_vs_go_pos_benchma.Dashboard.Period.{
  Datetime, day_length, is_leap, days_before_year, days_in_month, days_of_months, instant, midnight,
  next_month, period_bounds,
}

-- A datetime of the calendar.
pub record IsDate (d : Datetime) : Type 0 where
  pub year_from : 1 ≤ d.year
  pub month_from : 1 ≤ d.month
  pub month_to : d.month ≤ 12
  pub day_from : 1 ≤ d.day
  pub day_to : d.day ≤ days_in_month d.year d.month
  pub time_to : d.time < day_length

-- A year has the days of its twelve months.
year_length : (y : ℕ) → 1 ≤ y → days_before_year (y + 1) ≡ days_before_year y + days_of_months y 12
unfolding days_before_year days_of_months days_in_month
year_length y h = elim (Bool-cases (is_leap y)) [
  | inl leap ↦ rw leap (ground (arith, leap))
  | inr common ↦ rw common (ground (arith, common))
]

months_step : (y m : ℕ) → 1 ≤ m → days_of_months y m ≡ days_of_months y (m - 1) + days_in_month y m
unfolding days_of_months
months_step y zero h = absurd (omega arith)
months_step y (suc m) h = let e : suc m - 1 ≡ m = omega arith in rw e

within_today :
    (d : Datetime)
    → IsDate d
    → (instant (midnight d) ≤ instant d) × (instant d < instant (midnight d) + day_length)
unfolding instant
within_today d h = let soon = h.time_to in (omega arith, omega (arith, soon))

-- The first instant of the month of a date.
abbrev month_start : Datetime → Datetime
month_start d = record (midnight d) { day = 1 }

within_month :
    (d : Datetime)
    → IsDate d
    → (instant (month_start d) ≤ instant d) × (instant d < instant (next_month (month_start d)))
unfolding instant days_of_months
within_month d h =
    let step = months_step d.year d.month h.month_from in
    let soon = h.time_to in
    let day_to = h.day_to in
    let day_from = h.day_from in
    (
      omega (arith, soon),
      elim (Bool-cases (d.month == 12)) [
        | inl december ↦
            let is_12 : d.month ≡ 12 = (==_iff d.month 12).0 december in
            let year = year_length d.year h.year_from in
            let year' : days_before_year (d.year + 1)
                ≡ days_before_year d.year + days_of_months d.year d.month =
              rw is_12 year in
            rw december (omega (arith, year', step, soon, day_to, day_from))
        | inr earlier ↦
            let e : d.month + 1 - 1 ≡ d.month = omega arith in
            rw (earlier, e) (omega (arith, step, soon, day_to, day_from))
      ],
    )

ends : (a b s e : ℕ) → ◌≡◌ {A = Result (ℕ × ℕ)} (ok (a, b)) (ok (s, e)) → (a ≡ s) × (b ≡ e)
ends a b s e h =
    let same : ◌≡◌ {A = ℕ × ℕ} (a, b) (s, e) = cc in
    (ap (λ (x : ℕ × ℕ). x.0) same, ap (λ (x : ℕ × ℕ). x.1) same)

-- On a date of the calendar, a period that is one of the three begins no later than the instant at
-- which it is asked for, and ends after it.
pub period_bounds_contains :
    (period : String) (now : Datetime) (start end_ : ℕ)
    → IsDate now
    → period_bounds period now ≡ ok (start, end_)
    → (start ≤ instant now) × (instant now < end_)
unfolding period_bounds
period_bounds_contains period now start end_ date h =
    let today = within_today now date in
    let month = within_month now date in
    elim (Bool-cases (str_eq period "TODAY")) [
      | inl is_today ↦
          let (s, e) =
            ends (instant (midnight now)) (instant (midnight now) + 1 * day_length) start end_
              (rw is_today at h) in
          (omega (arith, today.0, s), omega (arith, today.1, e))
      | inr not_today ↦ elim (Bool-cases (str_eq period "LAST_7_DAYS")) [
        | inl week ↦
            let (s, e) =
              ends (instant (midnight now) - 6 * day_length)
                (instant (midnight now) + 1 * day_length) start end_ (rw (not_today, week) at h) in
            (omega (arith, today.0, s), omega (arith, today.1, e))
        | inr not_week ↦ elim (Bool-cases (str_eq period "THIS_MONTH")) [
          | inl monthly ↦
              let (s, e) =
                ends (instant (month_start now)) (instant (next_month (month_start now))) start end_
                  (rw (not_today, not_week, monthly) at h) in
              (omega (arith, month.0, s), omega (arith, month.1, e))
          | inr neither ↦
              let refused : err (failure 422 "INVALID_PERIOD" "Dashboard dönemi geçersiz.")
                  ≡ ok (start, end_) =
                rw (not_today, not_week, neither) at h in
              cc
        ]
      ]
    ]
