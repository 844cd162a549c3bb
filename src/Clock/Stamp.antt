-- ===== src/Clock/Stamp.antt =====
-- `rtc_time2unix_stamp` counts the seconds since 1970.
use munk_os.Prelude.{
  ℕ, zero, suc, ◌+◌, ◌-◌, ◌*◌, ◌%◌, ◌^◌, ◌≤◌, ◌<◌, ◌≡◌, refl, ap, arith, Bool, true, false, ◌&&◌,
  ltb, if◌then◌else◌, ok, some, get_elem?,
}
use munk_os.Clock.{RtcTime, rtc_time_to_gdn, rtc_time2unix_stamp, month_to_gdn}
use munk_os.Clock.Calendar.{leap, days_of_years, days_of_months, days_in_month}
use munk_os.Clock.Days.{year_to_gdn-days_of_years, epoch, days_of_years-le, days_of_years-bound}

-- A time of the calendar, of a 16-bit year from 1970 on.
pub record IsTime (t : RtcTime) : Type 0 where
  pub year_from : 1970 ≤ t.year
  pub year_to : t.year < 2 ^ 16
  pub month_from : 1 ≤ t.month
  pub month_to : t.month ≤ 12
  pub day_from : 1 ≤ t.day
  pub day_to : t.day ≤ days_in_month (leap t.year) t.month
  pub hour_to : t.hour < 24
  pub minute_to : t.minute < 60
  pub second_to : t.second < 60

-- The days since January 1st of the year 1, and the seconds since midnight.
abbrev pub days_before : RtcTime → ℕ
days_before t =
    days_of_years (t.year - 1) + days_of_months (leap t.year) (t.month - 1) + (t.day - 1)

abbrev pub seconds_of_day : RtcTime → ℕ
seconds_of_day t = t.hour * 3600 + t.minute * 60 + t.second

month_days :
    (l : Bool) (m : ℕ)
    → m < 12
    → (d : ℕ) × (get_elem? month_to_gdn m ≡ some d)
      × (d + (if l && ltb 1 m then 1 else 0) ≡ days_of_months l m)
month_days true zero h = (0, refl, refl)
month_days false zero h = (0, refl, refl)
month_days true (suc zero) h = (31, refl, refl)
month_days false (suc zero) h = (31, refl, refl)
month_days true (suc (suc zero)) h = (59, refl, refl)
month_days false (suc (suc zero)) h = (59, refl, refl)
month_days true (suc (suc (suc zero))) h = (90, refl, refl)
month_days false (suc (suc (suc zero))) h = (90, refl, refl)
month_days true (suc (suc (suc (suc zero)))) h = (120, refl, refl)
month_days false (suc (suc (suc (suc zero)))) h = (120, refl, refl)
month_days true (suc (suc (suc (suc (suc zero))))) h = (151, refl, refl)
month_days false (suc (suc (suc (suc (suc zero))))) h = (151, refl, refl)
month_days true (suc (suc (suc (suc (suc (suc zero)))))) h = (181, refl, refl)
month_days false (suc (suc (suc (suc (suc (suc zero)))))) h = (181, refl, refl)
month_days true (suc (suc (suc (suc (suc (suc (suc zero))))))) h = (212, refl, refl)
month_days false (suc (suc (suc (suc (suc (suc (suc zero))))))) h = (212, refl, refl)
month_days true (suc (suc (suc (suc (suc (suc (suc (suc zero)))))))) h = (243, refl, refl)
month_days false (suc (suc (suc (suc (suc (suc (suc (suc zero)))))))) h = (243, refl, refl)
month_days true (suc (suc (suc (suc (suc (suc (suc (suc (suc zero))))))))) h = (273, refl, refl)
month_days false (suc (suc (suc (suc (suc (suc (suc (suc (suc zero))))))))) h = (273, refl, refl)
month_days true (suc (suc (suc (suc (suc (suc (suc (suc (suc (suc zero)))))))))) h =
    (304, refl, refl)
month_days false (suc (suc (suc (suc (suc (suc (suc (suc (suc (suc zero)))))))))) h =
    (304, refl, refl)
month_days true (suc (suc (suc (suc (suc (suc (suc (suc (suc (suc (suc zero))))))))))) h =
    (334, refl, refl)
month_days false (suc (suc (suc (suc (suc (suc (suc (suc (suc (suc (suc zero))))))))))) h =
    (334, refl, refl)
month_days l (suc (suc (suc (suc (suc (suc (suc (suc (suc (suc (suc (suc m)))))))))))) h =
    absurd (omega arith)

pub short_month : (l : Bool) (m : ℕ) → days_in_month l m ≤ 31
short_month l m = ground arith

days_of_months-bound : (l : Bool) (n : ℕ) → days_of_months l n ≤ 31 * n
days_of_months-bound l zero = omega arith
days_of_months-bound l (suc n) = ground (arith, days_of_months-bound l n)

to_gdn :
    (t : RtcTime) (y m : ℕ)
    → t.year + 1900 ≡ suc y
    → suc y < 2 ^ 64
    → t.month ≡ m
    → m < 12
    → 1 ≤ t.day
    → rtc_time_to_gdn t ≡ ok (days_of_years y + days_of_months (leap (suc y)) m + (t.day - 1))
unfolding rtc_time_to_gdn
to_gdn t y m e h f low d =
    let r = month_days (leap (suc y)) m low in
    rw (f, r.1, f, e, year_to_gdn-days_of_years y h) (ap ok (omega (arith, r.2, d)))

no_wrap :
    (d h m s : ℕ)
    → 719162 ≤ d
    → d < 30000000
    → h < 24
    → m < 60
    → s < 60
    → ((d + 2 ^ 64 - 719162) % 2 ^ 64 * 86400 + h * 3600 + m * 60 + s) % 2 ^ 64
      ≡ (d - 719162) * 86400 + (h * 3600 + m * 60 + s)
no_wrap d h m s a b e f g = omega arith

days_before-from : (t : RtcTime) → IsTime t → 719162 ≤ days_before t
days_before-from t v =
    omega (arith, days_of_years-le 1969 (t.year - 1) (omega (arith, v.year_from)), epoch)

days_before-to : (t : RtcTime) → IsTime t → days_before t < 30000000
days_before-to t v = omega (
  arith,
  days_of_years-bound (t.year - 1),
  days_of_months-bound (leap t.year) (t.month - 1),
  short_month (leap t.year) t.month,
  v.day_to,
  v.year_to,
  v.month_to,
)

-- For a time of the calendar whose year is 1970 or later and fits in 16 bits,
-- `rtc_time2unix_stamp` reads inside its month table and returns the exact number of seconds since
-- January 1st 1970, its days counted year by year and month by month.
pub rtc_time2unix_stamp-counts :
    (t : RtcTime)
    → IsTime t
    → rtc_time2unix_stamp t ≡ ok ((days_before t - days_of_years 1969) * 86400 + seconds_of_day t)
unfolding rtc_time2unix_stamp
rtc_time2unix_stamp-counts t v =
    let year : (t.year + 2 ^ 16 - 1900) % 2 ^ 16 + 1900 ≡ suc (t.year - 1) =
      omega (arith, v.year_from, v.year_to) in
    let month : (t.month + 2 ^ 8 - 1) % 2 ^ 8 ≡ t.month - 1 =
      omega (arith, v.month_from, v.month_to) in
    let u = record t {
      year = (t.year + 2 ^ 16 - 1900) % 2 ^ 16;
      month = (t.month + 2 ^ 8 - 1) % 2 ^ 8;
    } in
    let y = t.year - 1 in
    let same : suc y ≡ t.year = omega (arith, v.year_from) in
    let g =
      to_gdn u y (t.month - 1) year (omega (arith, v.year_to)) month
        (omega (arith, v.month_from, v.month_to)) v.day_from in
    rw (g, same)
      (ap ok (
        no_wrap (days_before t) t.hour t.minute t.second (days_before-from t v) (days_before-to t v)
          v.hour_to v.minute_to v.second_to))
