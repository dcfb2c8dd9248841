-- ===== src/Time/Tests.antt =====
-- Examples of the theorems on dates and the clock.
use ogos.Prelude.{ℕ, ◌≡◌, refl, some, arith}
use ogos.Time.{TDate, parse_date, parse_time}
use ogos.Time.Roundtrip.{IsDate, parse_time-parse_date}
use ogos.Time.Rtc.{Reading}

-- 29 February 2000, a Tuesday, 12:34:56
abbrev leap_day : TDate
leap_day = record {
  year = 2000;
  us = 7;
  sec = 56;
  min = 34;
  hour = 12;
  day = 29;
  wday = 2;
  month = 2;
  yday = 59;
}

leap_day-IsDate : IsDate leap_day 30
leap_day-IsDate = record {
  year = refl;
  era = omega arith;
  month = omega arith;
  first = omega arith;
  narrow = omega arith;
  in_range = refl;
  yday = refl;
  wday = refl;
  hour = omega arith;
  min = omega arith;
  sec = omega arith;
  us = omega arith;
}

parse_time-parse_date_example : parse_time (parse_date leap_day) ≡ some leap_day
parse_time-parse_date_example = parse_time-parse_date leap_day 30 leap_day-IsDate

abbrev reading : ℕ → Reading
reading hour = record {
  second = 0x59;
  minute = 0x30;
  hour = hour;
  day = 0x31;
  month = 0x12;
  year = 0x99;
  century = 0x19;
}
