-- ===== src/Cmos/Tests.antt =====
-- Examples for the clock of cmos.c.
use os_2024_doors.Base.{◌≡◌, refl, arith, false}
use os_2024_doors.Cmos.{
  Time, from_bcd, hour_from_bcd, to_24_hour, full_year, read_rtc, days_since_epoch, timestamp,
  get_timestamp,
}
use os_2024_doors.Cmos.Calendar.{IsTime, registers_of, calendar_seconds, get_timestamp-calendar}

-- 2024-02-29 23:59:58
abbrev leap_evening : Time
leap_evening = record { year = 2024; month = 2; day = 29; hour = 23; minute = 59; second = 58 }

leap_evening-IsTime : IsTime leap_evening
leap_evening-IsTime = record {
  year_ge = omega arith;
  year_le = omega arith;
  month_ge = omega arith;
  month_le = omega arith;
  day_ge = omega arith;
  day_le = omega arith;
  hour_lt = omega arith;
  minute_lt = omega arith;
  second_lt = omega arith;
}

get_timestamp-calendar_example :
    get_timestamp (registers_of false leap_evening) ≡ calendar_seconds leap_evening
get_timestamp-calendar_example =
    get_timestamp-calendar false leap_evening leap_evening-IsTime (omega arith)

-- The value that other programs give for this time.
leap_evening_seconds : get_timestamp (registers_of false leap_evening) ≡ 1709251198
unfolding get_timestamp read_rtc from_bcd hour_from_bcd to_24_hour full_year timestamp
    days_since_epoch
leap_evening_seconds = refl

-- In 12-hour mode the registers of 12 PM, 0x92, give hour 0, and those of 12 AM, 0x12, hour 12.
noon : to_24_hour 0 (hour_from_bcd 0x92) ≡ 0
unfolding to_24_hour hour_from_bcd
noon = refl

midnight : to_24_hour 0 (hour_from_bcd 0x12) ≡ 12
unfolding to_24_hour hour_from_bcd
midnight = refl
