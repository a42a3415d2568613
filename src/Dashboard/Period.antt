-- ===== src/Dashboard/Period.antt =====
-- `period_bounds` of python/app/dashboard.py, on the calendar of Python's datetime. An instant is a
-- number of microseconds since the midnight that begins 1 January of the year 1.
-- Before 7 January of that year the subtraction of six days stops at 0, and years have no end, where
-- datetime raises OverflowError or, past 9999, ValueError.
pub mod Contains
use python_vs_go_pos_benchma.Prelude.{
  ℕ, zero, suc, ◌+◌, ◌-◌, ◌*◌, ◌/◌, ◌%◌, Bool, not, ◌&&◌, ◌||◌, String, ◌==◌, str_eq, if◌then◌else◌,
}
use python_vs_go_pos_benchma.Errors.{Result, ok, err, failure}

-- A datetime in UTC: a day of the calendar, and the microseconds since its midnight.
pub record Datetime : Type 0 where
  pub year : ℕ
  pub month : ℕ
  pub day : ℕ
  pub time : ℕ

abbrev pub day_length : ℕ
day_length = 86400000000

abbrev pub is_leap : ℕ → Bool
is_leap y = (y % 4 == 0) && (not (y % 100 == 0) || (y % 400 == 0))

-- The days of the years before this one.
unfoldable pub days_before_year : ℕ → ℕ
days_before_year year = let y = year - 1 in y * 365 + y / 4 + y / 400 - y / 100

unfoldable pub days_in_month : ℕ → ℕ → ℕ
days_in_month year month =
    if month == 2
    then (if is_leap year then 29 else 28)
    else if (month == 4) || (month == 6) || (month == 9) || (month == 11)
    then 30
    else 31

-- The days of this many months of a year, from January on.
unfoldable pub days_of_months : ℕ → ℕ → ℕ
unfolding days_in_month
days_of_months year zero = 0
days_of_months year (suc m) = days_of_months year m + days_in_month year (suc m)

-- The instant of a datetime.
unfoldable pub instant : Datetime → ℕ
unfolding days_before_year days_of_months
instant d =
    (days_before_year d.year + days_of_months d.year (d.month - 1) + (d.day - 1)) * day_length
    + d.time

-- now.replace(hour=0, minute=0, second=0, microsecond=0)
abbrev pub midnight : Datetime → Datetime
midnight d = record d { time = 0 }

-- start.replace(month=start.month + 1), in December of the next year's January
abbrev pub next_month : Datetime → Datetime
next_month start =
    if start.month == 12
    then record start { year = start.year + 1; month = 1 }
    else record start { month = start.month + 1 }

unfoldable pub period_bounds : String → Datetime → Result (ℕ × ℕ)
period_bounds period now =
    let today = midnight now in
    let start = record today { day = 1 } in
    if str_eq period "TODAY"
    then ok (instant today, instant today + 1 * day_length)
    else if str_eq period "LAST_7_DAYS"
    then ok (instant today - 6 * day_length, instant today + 1 * day_length)
    else if str_eq period "THIS_MONTH"
    then ok (instant start, instant (next_month start))
    else err (failure 422 "INVALID_PERIOD" "Dashboard dönemi geçersiz.")
