-- ===== src/Clock.antt =====
-- The real-time clock of kernel/src/arch/x86-64/timers.c: the conversion of its registers to a time,
-- and of a time to seconds since 1970. Machine integers are written out: `uint8_t` is taken modulo
-- 2 ^ 8, `uint16_t` modulo 2 ^ 16 and `uint64_t` modulo 2 ^ 64. The day numbers fit in an `int`
-- for every 16-bit year.
pub mod Calendar
pub mod Days
pub mod Stamp
pub mod Reading
mod Tests
use munk_os.Prelude.{
  ℕ, ◌+◌, ◌-◌, ◌*◌, ◌/◌, ◌%◌, ◌^◌, Bool, true, false, ◌&&◌, ◌||◌, not, List, [], ◌∷◌, Option, none,
  some, Outcome, ok, panic, fault, out_of_fuel, ◌>>=◌, zero, suc, get_elem?, ltb, ◌==◌,
  if◌then◌else◌,
}

-- `rtc_time_ctx_t`
pub record RtcTime : Type 0 where
  pub second : ℕ
  pub minute : ℕ
  pub hour : ℕ
  pub day : ℕ
  pub month : ℕ
  pub year : ℕ
  pub century : ℕ

abbrev pub gdn_epoch : ℕ
gdn_epoch = 719162

abbrev pub time_current_year : ℕ
time_current_year = 2023

abbrev pub year_is_leap : ℕ → ℕ → ℕ → Bool
year_is_leap year_in_cycle year_in_century year_in_group =
    (year_in_group == 3) && (not (year_in_century == 99) || (year_in_cycle == 399))

-- The day number of January 1st, and whether the year is a leap year.
unfoldable pub year_to_gdn : ℕ → ℕ × Bool
year_to_gdn y =
    let year = (y + 2 ^ 64 - 1) % 2 ^ 64 in
    let cycle = year / 400 in
    let year_in_cycle = year % 400 in
    let century = year_in_cycle / 100 in
    let year_in_century = year_in_cycle % 100 in
    let group = year_in_century / 4 in
    let year_in_group = year_in_century % 4 in
    (
      146097 * cycle + 36524 * century + 1461 * group + 365 * year_in_group,
      year_is_leap year_in_cycle year_in_century year_in_group,
    )

abbrev pub month_to_gdn : List ℕ
month_to_gdn = 0 ∷ 31 ∷ 59 ∷ 90 ∷ 120 ∷ 151 ∷ 181 ∷ 212 ∷ 243 ∷ 273 ∷ 304 ∷ 334 ∷ []

-- The months count from 0 here, and the years from 1900. A month past the table is read outside it.
unfoldable pub rtc_time_to_gdn : RtcTime → Outcome ℕ
rtc_time_to_gdn ctx =
    let (gdn, is_leap) = year_to_gdn (ctx.year + 1900) in
    elim (get_elem? month_to_gdn ctx.month) [
      | none ↦ fault
      | some days ↦ ok (gdn + (days + (if is_leap && ltb 1 ctx.month then 1 else 0)) + ctx.day - 1)
    ]

-- `rtc_time2unix_stamp`; the difference of the day numbers is an `int` and is then extended.
unfoldable pub rtc_time2unix_stamp : RtcTime → Outcome ℕ
rtc_time2unix_stamp t = do
  gdn ←
      rtc_time_to_gdn (record t {
        year = (t.year + 2 ^ 16 - 1900) % 2 ^ 16;
        month = (t.month + 2 ^ 8 - 1) % 2 ^ 8;
      })
  ok (
      ((gdn + 2 ^ 64 - gdn_epoch) % 2 ^ 64 * 86400 + t.hour * 3600 + t.minute * 60 + t.second)
      % 2 ^ 64)

-- `BCD2BIN`
abbrev pub bcd2bin : ℕ → ℕ
bcd2bin val = val % 16 + val / 16 * 10

-- The hour keeps its bit 7, which says PM.
abbrev pub bcd2bin_hour : ℕ → ℕ
bcd2bin_hour hour = hour % 16 + hour / 16 % 8 * 10 + hour / 128 * 128

-- The part of `rd_rtc` behind the reads: `binary` and `hours24` are bits 2 and 1 of register B, and
-- `has_century` says whether the firmware names a century register.
unfoldable pub rtc_decode : Bool → Bool → Bool → RtcTime → RtcTime
rtc_decode has_century binary hours24 r =
    let c : RtcTime = if binary then r else record r {
      second = bcd2bin r.second;
      minute = bcd2bin r.minute;
      hour = bcd2bin_hour r.hour;
      day = bcd2bin r.day;
      month = bcd2bin r.month;
      year = bcd2bin r.year;
      century = if has_century then bcd2bin r.century else r.century;
    } in
    let hour = if not hours24 && ltb 127 c.hour then (c.hour % 128 + 12) % 24 else c.hour in
    let base = time_current_year / 100 * 100 in
    let year =
      if has_century
      then (c.year + c.century * 100) % 2 ^ 16
      else if ltb base time_current_year
      then base + 100
      else base in
    record c { hour = hour; year = year }

-- The `memcmp` of the read loop. Both structures start as `{}`, all zero, padding included, and only
-- their members are written, so that the bytes between these never differ.
abbrev pub same_time : RtcTime → RtcTime → Bool
same_time a b =
    (a.second == b.second)
    && (a.minute == b.minute)
    && (a.hour == b.hour)
    && (a.day == b.day)
    && (a.month == b.month)
    && (a.year == b.year)
    && (a.century == b.century)

-- The read loop of `rd_rtc`: `reads` are the successive reads of the registers, each of which waits
-- for the update flag to clear, and `last` is the read before.
unfoldable pub rtc_read_stable : List RtcTime → RtcTime → Outcome RtcTime
rtc_read_stable [] last = out_of_fuel
rtc_read_stable (curr ∷ reads) last =
    let rest = rtc_read_stable reads curr in if same_time curr last then ok curr else rest

-- `rd_rtc`, from the reads of the time registers and of register B.
unfoldable pub rd_rtc : Bool → List RtcTime → ℕ → Outcome RtcTime
rd_rtc has_century [] binary_reg = out_of_fuel
rd_rtc has_century (first ∷ reads) binary_reg = do
  curr ← rtc_read_stable reads first
  ok (rtc_decode has_century (binary_reg / 4 % 2 == 1) (binary_reg / 2 % 2 == 1) curr)

-- The start value of `unix_time` in `time_init`.
unfoldable pub time_init : Bool → List RtcTime → ℕ → Outcome ℕ
time_init has_century reads binary_reg = do
  ctx ← rd_rtc has_century reads binary_reg
  rtc_time2unix_stamp ctx
