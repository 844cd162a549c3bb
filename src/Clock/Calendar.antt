-- ===== src/Clock/Calendar.antt =====
-- The Gregorian calendar, by counting: leap years, and the days before a year and before a month.
use munk_os.Prelude.{ℕ, zero, suc, ◌+◌, ◌%◌, Bool, ◌&&◌, ◌||◌, not, ◌==◌, if◌then◌else◌}

abbrev pub leap : ℕ → Bool
leap y = (y % 4 == 0) && (not (y % 100 == 0) || (y % 400 == 0))

abbrev pub days_in_year : ℕ → ℕ
days_in_year y = if leap y then 366 else 365

-- The days from January 1st of the year 1 to January 1st of the year `n + 1`.
abbrev pub days_of_years : ℕ → ℕ
days_of_years zero = 0
days_of_years (suc n) = days_of_years n + days_in_year (suc n)

abbrev pub days_in_month : Bool → ℕ → ℕ
days_in_month is_leap m =
    if m == 2
    then (if is_leap then 29 else 28)
    else if (m == 4) || (m == 6) || (m == 9) || (m == 11)
    then 30
    else 31

-- The days of the first `n` months.
abbrev pub days_of_months : Bool → ℕ → ℕ
days_of_months is_leap zero = 0
days_of_months is_leap (suc n) = days_of_months is_leap n + days_in_month is_leap (suc n)
