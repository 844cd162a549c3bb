-- ===== src/Clock/Days.antt =====
-- `year_to_gdn` counts the days of the calendar.
use munk_os.Prelude.{
  ℕ, zero, suc, ◌+◌, ◌-◌, ◌*◌, ◌/◌, ◌%◌, ◌^◌, ◌≤◌, ◌<◌, ◌≡◌, refl, sym, arith, Bool-cases, ==_iff,
  inl, inr, ◌==◌,
}
use munk_os.Clock.{year_to_gdn, year_is_leap}
use munk_os.Clock.Calendar.{leap, days_of_years, days_in_year}

-- The day number, by the years gone by.
abbrev day_number : ℕ → ℕ
day_number n =
    146097 * (n / 400)
    + 36524 * (n % 400 / 100)
    + 1461 * (n % 400 % 100 / 4)
    + 365 * (n % 400 % 100 % 4)

leap-year_is_leap :
    (n : ℕ) → leap (suc n) ≡ year_is_leap (n % 400) (n % 400 % 100) (n % 400 % 100 % 4)
leap-year_is_leap n = ground arith

day_number-suc : (n : ℕ) → day_number (suc n) ≡ day_number n + days_in_year (suc n)
day_number-suc n = ground arith

day_number-days : (n : ℕ) → day_number n ≡ days_of_years n
day_number-days zero = refl
day_number-days (suc n) = omega (arith, day_number-suc n, day_number-days n)

-- For every year from 1 on that fits in 64 bits, `year_to_gdn` gives the number of days from the
-- year 1 to it, counted year by year, and whether it is a leap year of the Gregorian calendar.
pub year_to_gdn-days_of_years :
    (y : ℕ) → suc y < 2 ^ 64 → year_to_gdn (suc y) ≡ (days_of_years y, leap (suc y))
unfolding year_to_gdn
year_to_gdn-days_of_years y h =
    let e : (suc y + 2 ^ 64 - 1) % 2 ^ 64 ≡ y = omega arith in
    rw (e, ← day_number-days y, leap-year_is_leap) refl

pub epoch : days_of_years 1969 ≡ 719162
epoch = sym (day_number-days 1969)

pub days_of_years-le : (n m : ℕ) → n ≤ m → days_of_years n ≤ days_of_years m
days_of_years-le n zero h = let e : n ≡ 0 = omega arith in rw e (omega arith)
days_of_years-le n (suc m) h = elim (Bool-cases (n == suc m)) [
  | inl e ↦ rw ((==_iff n (suc m)).0 e) (omega arith)
  | inr e ↦ omega (arith, days_of_years-le n m (ground (arith, e)))
]

pub days_of_years-bound : (n : ℕ) → days_of_years n ≤ 366 * n
days_of_years-bound zero = omega arith
days_of_years-bound (suc n) = ground (arith, days_of_years-bound n)
