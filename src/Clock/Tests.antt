-- ===== src/Clock/Tests.antt =====
-- Runs of the clock's conversions, and the theorems at concrete times.
use munk_os.Prelude.{◌+◌, ◌-◌, ◌*◌, ◌≡◌, refl, arith, true, false, [], ◌∷◌, ok}
use munk_os.Clock.{
  RtcTime, rtc_decode, rtc_read_stable, year_to_gdn, rtc_time_to_gdn, rtc_time2unix_stamp,
  time_init,
}
use munk_os.Clock.Calendar.{leap, days_of_years}
use munk_os.Clock.Days.{year_to_gdn-days_of_years}
use munk_os.Clock.Stamp.{IsTime, days_before, seconds_of_day, rtc_time2unix_stamp-counts}
use munk_os.Clock.Reading.{registers, rtc_read_stable-returns, time_init-counts}

-- Noon of February 29th 2024.
abbrev leap_day : RtcTime
leap_day = record {
  second = 0;
  minute = 0;
  hour = 12;
  day = 29;
  month = 2;
  year = 2024;
  century = 20;
}

leap_day-IsTime : IsTime leap_day
leap_day-IsTime = record {
  year_from = omega arith;
  year_to = omega arith;
  month_from = omega arith;
  month_to = omega arith;
  day_from = omega arith;
  day_to = omega arith;
  hour_to = omega arith;
  minute_to = omega arith;
  second_to = omega arith;
}

leap_day_stamp : rtc_time2unix_stamp leap_day ≡ ok 1709208000
unfolding rtc_time2unix_stamp rtc_time_to_gdn year_to_gdn
leap_day_stamp = refl

-- A chip in 12-hour mode at noon, which has the PM bit: the hour becomes 0.
noon : (rtc_decode true true false (record leap_day { hour = 128 + 12 })).hour ≡ 0
unfolding rtc_decode
noon = refl

-- Without a century register the year is 2100, whatever the registers hold.
no_century : (rtc_decode false true true leap_day).year ≡ 2100
unfolding rtc_decode
no_century = refl

year_to_gdn-days_of_years_example : year_to_gdn 2024 ≡ (days_of_years 2023, leap 2024)
year_to_gdn-days_of_years_example = year_to_gdn-days_of_years 2023 (omega arith)

rtc_time2unix_stamp-counts_example :
    rtc_time2unix_stamp leap_day
    ≡ ok ((days_before leap_day - days_of_years 1969) * 86400 + seconds_of_day leap_day)
rtc_time2unix_stamp-counts_example = rtc_time2unix_stamp-counts leap_day leap_day-IsTime

abbrev eve : RtcTime
eve = record leap_day { second = 59; minute = 59; hour = 11 }

settles : rtc_read_stable (leap_day ∷ leap_day ∷ []) eve ≡ ok leap_day
unfolding rtc_read_stable
settles = refl

rtc_read_stable-returns_example :
    (d : RtcTime) × (rtc_read_stable (leap_day ∷ leap_day ∷ []) eve ≡ ok d)
rtc_read_stable-returns_example =
    rtc_read_stable-returns (eve ∷ []) [] leap_day eve (leap_day ∷ leap_day ∷ []) refl

time_init-counts_example :
    time_init true (registers false leap_day ∷ registers false leap_day ∷ []) 2
    ≡ ok ((days_before leap_day - days_of_years 1969) * 86400 + seconds_of_day leap_day)
time_init-counts_example = time_init-counts leap_day 2 [] leap_day-IsTime (omega arith) refl
