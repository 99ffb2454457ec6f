-- ===== src/Timestamp/Gregorian.antt =====
-- The Gregorian calendar, by its rules and not by the code: when a year is a leap year, and how long
-- the months are. src/core.cpp `is_leap_year` and `days_in_month` are proved against it.
use bengal_market.Base.{Bool, arith, if◌then◌else◌, suc, ℕ, ◌%◌, ◌==◌, ◌||◌, ◌≡◌, ◌≤◌}
use bengal_market.Timestamp.{days_in_month, is_leap_year}

-- Every fourth year, but of the last years of the centuries only every fourth.
abbrev pub leap : ℕ → Bool
leap year = if year % 100 == 0 then year % 400 == 0 else year % 4 == 0

-- April, June, September and November have 30 days, and February 28 or 29.
abbrev pub month_days : ℕ → ℕ → ℕ
month_days year month =
    if month == 2
    then (if leap year then 29 else 28)
    else if (month == 4) || (month == 6) || (month == 9) || (month == 11)
    then 30
    else 31

pub is_leap_year-leap : (year : ℕ) → is_leap_year year ≡ leap year
unfolding is_leap_year
is_leap_year-leap year = ground arith

pub days_in_month-month_days :
    (year month : ℕ) → 1 ≤ month → month ≤ 12 → days_in_month year month ≡ month_days year month
unfolding days_in_month is_leap_year
days_in_month-month_days year
      (suc (suc (suc (suc (suc (suc (suc (suc (suc (suc (suc (suc (suc m))))))))))))) lo hi =
    absurd (omega arith)
days_in_month-month_days year _ lo hi = ground arith

pub month_days-le : (year month : ℕ) → 1 ≤ month → month ≤ 12 → month_days year month ≤ 31
month_days-le year (suc (suc (suc (suc (suc (suc (suc (suc (suc (suc (suc (suc (suc m)))))))))))))
      lo hi =
    absurd (omega arith)
month_days-le year _ lo hi = ground arith
