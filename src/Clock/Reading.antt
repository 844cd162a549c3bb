-- ===== src/Clock/Reading.antt =====
-- `rd_rtc`: what its read loop settles on, and that the conversion recovers the time that the
-- registers hold.
use munk_os.Prelude.{
  ℕ, ◌+◌, ◌-◌, ◌*◌, ◌/◌, ◌%◌, ◌^◌, ◌<◌, ◌≡◌, inl, inr, refl, ap, ◌∙◌, arith, Bool, true, false,
  ◌==◌, Bool-cases, if◌then◌else◌, ok, List, [], ◌∷◌, ◌++◌,
}
use munk_os.Clock.{
  RtcTime, rd_rtc, time_init, rtc_time2unix_stamp, rtc_decode, rtc_read_stable, same_time, bcd2bin,
  bcd2bin_hour,
}
use munk_os.Clock.Calendar.{leap, days_of_years}
use munk_os.Clock.Stamp.{
  IsTime, short_month, days_before, seconds_of_day, rtc_time2unix_stamp-counts,
}

-- How a clock chip stores a number below 100 in decimal digits.
abbrev pub to_bcd : ℕ → ℕ
to_bcd n = n / 10 * 16 + n % 10

-- The registers of a chip in 24-hour mode at a time, in binary or in decimal digits.
abbrev pub registers : Bool → RtcTime → RtcTime
registers binary t =
    let c : ℕ → ℕ = λ n. if binary then n else to_bcd n in
    record {
      second = c t.second;
      minute = c t.minute;
      hour = c t.hour;
      day = c t.day;
      month = c t.month;
      year = c (t.year % 100);
      century = c (t.year / 100);
    }

bcd2bin-to_bcd : (n : ℕ) → n < 100 → bcd2bin (to_bcd n) ≡ n
bcd2bin-to_bcd n h = omega arith

bcd2bin_hour-to_bcd : (n : ℕ) → n < 24 → bcd2bin_hour (to_bcd n) ≡ n
bcd2bin_hour-to_bcd n h = omega arith

RtcTime-ext :
    (a b : RtcTime)
    → a.second ≡ b.second
    → a.minute ≡ b.minute
    → a.hour ≡ b.hour
    → a.day ≡ b.day
    → a.month ≡ b.month
    → a.year ≡ b.year
    → a.century ≡ b.century
    → a ≡ b
RtcTime-ext a b s m h d o y c = λ i. record {
  second = s i;
  minute = m i;
  hour = h i;
  day = d i;
  month = o i;
  year = y i;
  century = c i;
}

year_digits :
    (y : ℕ)
    → y < 10000
    → (bcd2bin (to_bcd (y % 100)) + bcd2bin (to_bcd (y / 100)) * 100) % 2 ^ 16 ≡ y
year_digits y h =
    rw (bcd2bin-to_bcd (y % 100) (omega arith), bcd2bin-to_bcd (y / 100) (omega (arith, h)))
      (omega arith)

-- On a machine with a century register and a chip in 24-hour mode, the conversion of `rd_rtc`
-- recovers any time of the calendar from 1970 to 9999 from the registers, whether the chip counts
-- in binary or in decimal digits.
pub rtc_decode-registers :
    (binary : Bool) (t : RtcTime)
    → IsTime t
    → t.year < 10000
    → rtc_decode true binary true (registers binary t) ≡ record t { century = t.year / 100 }
unfolding rtc_decode
rtc_decode-registers true t v h =
    let year : (t.year % 100 + t.year / 100 * 100) % 2 ^ 16 ≡ t.year = omega arith in rw year refl
rtc_decode-registers false t v h =
    let day : t.day < 100 = omega (arith, v.day_to, short_month (leap t.year) t.month) in
    RtcTime-ext (rtc_decode true false true (registers false t))
      (record t { century = t.year / 100 }) (bcd2bin-to_bcd t.second (omega (arith, v.second_to)))
      (bcd2bin-to_bcd t.minute (omega (arith, v.minute_to))) (bcd2bin_hour-to_bcd t.hour v.hour_to)
      (bcd2bin-to_bcd t.day day) (bcd2bin-to_bcd t.month (omega (arith, v.month_to)))
      (year_digits t.year h) (bcd2bin-to_bcd (t.year / 100) (omega (arith, h)))

same_time-≡ : (a b : RtcTime) → same_time a b ≡ true → a ≡ b
same_time-≡ a b h =
    RtcTime-ext a b (ground (arith, h)) (ground (arith, h)) (ground (arith, h)) (ground (arith, h))
      (ground (arith, h)) (ground (arith, h)) (ground (arith, h))

same_time_refl : (a : RtcTime) → same_time a a ≡ true
same_time_refl a = ground arith

-- If the read loop of `rd_rtc` returns, then a read that was the same as the read just before.
pub rtc_read_stable-twice :
    (reads : List RtcTime) (last c : RtcTime)
    → rtc_read_stable reads last ≡ ok c
    → (xs ys : List RtcTime) × (last ∷ reads ≡ xs ++ c ∷ c ∷ ys)
unfolding rtc_read_stable
rtc_read_stable-twice [] last c h = cc
rtc_read_stable-twice (r ∷ reads) last c h = elim (Bool-cases (same_time r last)) [
  | inl e ↦ let i = same_time-≡ r last e in let j : r ≡ c = cc in ([], reads, cc)
  | inr e ↦
      let (xs, ys, p) = rtc_read_stable-twice reads r c (cc) in
      (last ∷ xs, ys, ap (λ zs. last ∷ zs) p)
]

-- The read loop of `rd_rtc` returns by the time two successive reads have been the same.
pub rtc_read_stable-returns :
    (xs ys : List RtcTime) (c last : RtcTime) (reads : List RtcTime)
    → last ∷ reads ≡ xs ++ c ∷ c ∷ ys
    → (d : RtcTime) × (rtc_read_stable reads last ≡ ok d)
unfolding rtc_read_stable
rtc_read_stable-returns [] ys c last [] e = cc
rtc_read_stable-returns (x ∷ []) ys c last [] e = cc
rtc_read_stable-returns (x ∷ z ∷ xs) ys c last [] e = cc
rtc_read_stable-returns [] ys c last (r ∷ reads) e =
    let i : r ≡ last = cc in (r, rw i (rw (same_time_refl last) refl))
rtc_read_stable-returns (x ∷ xs) ys c last (r ∷ reads) e = elim (Bool-cases (same_time r last)) [
  | inl s ↦ (r, rw s refl)
  | inr s ↦ let (d, h) = rtc_read_stable-returns xs ys c r reads (cc) in (d, rw s h)
]

with_century : (t : RtcTime) (c : ℕ) → IsTime t → IsTime (record t { century = c })
with_century t c v = record {
  year_from = v.year_from;
  year_to = v.year_to;
  month_from = v.month_from;
  month_to = v.month_to;
  day_from = v.day_from;
  day_to = v.day_to;
  hour_to = v.hour_to;
  minute_to = v.minute_to;
  second_to = v.second_to;
}

time_init-steady :
    (r : RtcTime) (reads : List RtcTime) (reg : ℕ)
    → time_init true (r ∷ r ∷ reads) reg
      ≡ rtc_time2unix_stamp (rtc_decode true (reg / 4 % 2 == 1) (reg / 2 % 2 == 1) r)
unfolding time_init rd_rtc rtc_read_stable
time_init-steady r reads reg = rw (same_time_refl r) refl

-- Started on a machine with a century register, from a chip in 24-hour mode whose first two reads
-- give the registers of a time of the calendar from 1970 to 9999, the kernel sets `unix_time` to
-- the exact number of seconds from January 1st 1970 to it.
pub time_init-counts :
    (t : RtcTime) (binary_reg : ℕ) (reads : List RtcTime)
    → IsTime t
    → t.year < 10000
    → binary_reg / 2 % 2 ≡ 1
    → let r = registers (binary_reg / 4 % 2 == 1) t in
      time_init true (r ∷ r ∷ reads) binary_reg
      ≡ ok ((days_before t - days_of_years 1969) * 86400 + seconds_of_day t)
time_init-counts t reg reads v h mode =
    let b = reg / 4 % 2 == 1 in
    let c =
      ap (λ k. rtc_decode true b (k == 1) (registers b t)) mode ∙ rtc_decode-registers b t v h in
    let later = with_century t (t.year / 100) v in
    time_init-steady (registers b t) reads reg
    ∙ ap rtc_time2unix_stamp c
    ∙ rtc_time2unix_stamp-counts (record t { century = t.year / 100 }) later
