-- ===== src/Time.antt =====
-- Dates and the clock: kernel/src/misc/time.c, kernel/include/kernel/time.h. `unsigned long long`
-- sums are taken mod 2^64 at the end: addition and multiplication commute with it.
pub mod Calendar
pub mod Roundtrip
pub mod Clock
pub mod Rtc
mod Tests
use mathlib.Core.Option
use ogos.Prelude.{
  ℕ, zero, suc, ◌+◌, ◌-◌, ◌*◌, ◌/◌, ◌%◌, ◌^◌, Option, none, some, Bool, List, [], ◌∷◌, ltb, ◌==◌,
  if◌then◌else◌, get_or, get_elem?,
}

-- `TDate`
pub record TDate : Type 0 where
  pub year : ℕ
  pub us : ℕ
  pub sec : ℕ
  pub min : ℕ
  pub hour : ℕ
  pub day : ℕ
  pub wday : ℕ
  pub month : ℕ
  pub yday : ℕ

abbrev pub mdays : List ℕ
mdays = 0 ∷ 31 ∷ 59 ∷ 90 ∷ 120 ∷ 151 ∷ 181 ∷ 212 ∷ 243 ∷ 273 ∷ 304 ∷ 334 ∷ 365 ∷ []

abbrev pub mdays_leap : List ℕ
mdays_leap = 0 ∷ 31 ∷ 60 ∷ 91 ∷ 121 ∷ 152 ∷ 182 ∷ 213 ∷ 244 ∷ 274 ∷ 305 ∷ 335 ∷ 366 ∷ []

-- The loop over the years, from year i on, with n years to go.
pub add_years : ℕ → ℕ → ℕ → ℕ
add_years zero i ret = ret
add_years (suc n) i ret = add_years n (i + 1) (if i % 4 == 0 then ret + 366 else ret + 365)

pub compute_days_for_year : ℕ → ℕ
compute_days_for_year year = add_years (year - 1970) 1970 0 % 2 ^ 64

-- The days before a month of 1 to 13. Another month reads outside the table.
pub compute_days_for_month : ℕ → ℕ → ℕ
compute_days_for_month month year =
    if year % 4 == 0 then get_or mdays_leap (month - 1) 0 else get_or mdays (month - 1) 0

pub compute_days_for_month_with_year : ℕ → ℕ → ℕ
compute_days_for_month_with_year month year =
    compute_days_for_year year + compute_days_for_month month year

pub compute_week_day_from_days : ℕ → ℕ
compute_week_day_from_days days = if days == 0 then 6 else (days - 1) % 7

pub compute_year_day : ℕ → ℕ → ℕ → ℕ
compute_year_day days month year = compute_days_for_month month year + (days - 1)

-- `day - 1` is an int: day 0 gives -1, which becomes 2^64 - 1 in the sum.
pub compute_time : ℕ → ℕ → ℕ → ℕ → ℕ → ℕ → ℕ → ℕ
compute_time usecond second minute hour day month year =
    (usecond
      + (second
          + (minute
              + (hour
                  + (day + (2 ^ 64 - 1) + compute_days_for_month_with_year month year)
                    % 2 ^ 64
                    * 24)
                * 60)
            * 60)
        * 1000000)
    % 2 ^ 64

pub parse_date : TDate → ℕ
parse_date dt = compute_time dt.us dt.sec dt.min dt.hour dt.day dt.month dt.year

-- `while (yearDay >= mstart[month]) month++;` `none` is a read outside the table.
pub find_month : ℕ → List ℕ → ℕ → ℕ → Option ℕ
find_month zero mstart year_day month = none
find_month (suc k) mstart year_day month =
    let rest = find_month k mstart year_day (month + 1) in
    elim (get_elem? mstart month) [
      | none ↦ none
      | some next ↦ if ltb year_day next then some month else rest
    ]

pub epoch_years_of : ℕ → ℕ
epoch_years_of epoch_days = (epoch_days - (epoch_days + 365) / 1460) / 365

pub year_day_of : ℕ → ℕ → ℕ
year_day_of epoch_days epoch_years =
    (epoch_days + 2 ^ 64 - (epoch_years * 365 + (epoch_years + 1) / 4)) % 2 ^ 32

-- The fields of a date, cut to the widths of `TDate`.
abbrev pub date_of : ℕ → ℕ → ℕ → ℕ → ℕ → List ℕ → ℕ → TDate
date_of us day_secs epoch_days epoch_years year_day mstart month = record {
  year = 1970 + epoch_years;
  us = us;
  sec = day_secs % 60;
  min = day_secs % 3600 / 60;
  hour = day_secs / 3600;
  day = (1 + year_day - get_or mstart (month - 1) 0) % 2 ^ 8;
  wday = (epoch_days + 4) % 7;
  month = month;
  yday = year_day % 2 ^ 16;
}

abbrev pub month_start : ℕ → List ℕ
month_start year = if year % 4 == 0 then mdays_leap else mdays

pub parse_time : ℕ → Option TDate
parse_time t =
    let us = t % 1000000 in
    let s = t / 1000000 in
    let epoch_days = s / 86400 in
    let day_secs = s % 86400 in
    let epoch_years = epoch_years_of epoch_days in
    let year_day = year_day_of epoch_days epoch_years in
    let mstart = month_start (1970 + epoch_years) in
    Option.map (date_of us day_secs epoch_days epoch_years year_day mstart)
      (find_month 13 mstart year_day 1)
