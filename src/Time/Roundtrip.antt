-- ===== src/Time/Roundtrip.antt =====
-- `tdate_parseTime` undoes `ttime_parseDate`.
use ogos.Prelude.{
  ℕ, ◌+◌, ◌-◌, ◌*◌, ◌/◌, ◌%◌, ◌^◌, ◌<◌, ◌≡◌, ◌≢◌, refl, sym, ap, Bool, true, false, arith, ◌==◌,
  if◌then◌else◌, get_or, some,
}
use ogos.Time.{
  TDate, mdays, mdays_leap, compute_week_day_from_days, compute_days_for_month,
  compute_days_for_month_with_year, compute_time, parse_date, date_of, parse_time,
}
use ogos.Time.Calendar.{
  years_days, year_length, compute_days-years, epoch_years_lem, month_table, in_month,
  find_month_lem, day_below,
}

-- Is 1970 + k a year of 366 days?
abbrev pub leap : ℕ → Bool
leap k = (1970 + k) % 4 == 0

-- A date whose fields are those of a day, in the years 1970 to 3431.
pub record IsDate (d : TDate) (k : ℕ) : Type 0 where
  pub year : d.year ≡ 1970 + k
  pub era : k < 1462
  pub month : d.month < 13
  pub first : 0 < d.day
  pub narrow : d.day < 2 ^ 8
  pub in_range : in_month (leap k) d.month (d.yday) ≡ true
  pub yday : d.yday ≡ get_or (month_table (leap k)) (d.month - 1) 0 + (d.day - 1)
  pub wday : d.wday ≡ (years_days k + d.yday + 4) % 7
  pub hour : d.hour < 24
  pub min : d.min < 60
  pub sec : d.sec < 60
  pub us : d.us < 1000000

time_value :
    (us s mi h d e x y : ℕ)
    → us < 1000000
    → s < 60
    → mi < 60
    → h < 24
    → 0 < d
    → y ≡ x + (d - 1)
    → e < 600000
    → y < 366
    → (us + (s + (mi + (h + (d + (2 ^ 64 - 1) + (e + x)) % 2 ^ 64 * 24) * 60) * 60) * 1000000)
        % 2 ^ 64
      ≡ us + (s + mi * 60 + h * 3600 + (e + y) * 86400) * 1000000
time_value us s mi h d e x y a b c f g eq i j =
    let n : (d + (2 ^ 64 - 1) + (e + x)) % 2 ^ 64 ≡ e + y = omega arith in rw n (omega arith)

time_split :
    (us s mi h e : ℕ)
    → us < 1000000
    → s < 60
    → mi < 60
    → h < 24
    → let t = us + (s + mi * 60 + h * 3600 + e * 86400) * 1000000 in
      (t % 1000000 ≡ us)
      × (t / 1000000 % 86400 ≡ s + mi * 60 + h * 3600)
      × (t / 1000000 / 86400 ≡ e)
time_split us s mi h e a b c f =
    let q : (us + (s + mi * 60 + h * 3600 + e * 86400) * 1000000) / 1000000
        ≡ s + mi * 60 + h * 3600 + e * 86400 =
      omega arith in
    (omega arith, rw q (omega arith), rw q (omega arith))

time_fields :
    (s mi h : ℕ)
    → s < 60
    → mi < 60
    → h < 24
    → let t = s + mi * 60 + h * 3600 in (t % 60 ≡ s) × (t % 3600 / 60 ≡ mi) × (t / 3600 ≡ h)
time_fields s mi h a b c = (omega arith, omega arith, omega arith)

table_if :
    (b : Bool) (i : ℕ)
    → (if b then get_or mdays_leap i 0 else get_or mdays i 0) ≡ get_or (month_table b) i 0
table_if true i = refl
table_if false i = refl

module _ (d : TDate) (k : ℕ) (v : IsDate d k) where
  in_year : d.yday < year_length k
  in_year = day_below (leap k) d.yday d.month v.month v.in_range

  year_length-le : d.yday < 366
  year_length-le = ground (arith, in_year)

  -- The time of a date in microseconds, with no wrap.
  parse_date_lem :
      parse_date d
      ≡ d.us + (d.sec + d.min * 60 + d.hour * 3600 + (years_days k + d.yday) * 86400) * 1000000
  unfolding parse_date compute_time compute_days_for_month_with_year compute_days_for_month
  parse_date_lem =
      rw (v.year, compute_days-years k (omega (arith, v.era)), table_if (leap k) (d.month - 1))
        (time_value d.us d.sec d.min d.hour d.day (years_days k) _ d.yday v.us v.sec v.min v.hour
          v.first v.yday (omega (arith, v.era)) year_length-le)

  date_of_lem :
      date_of d.us
        (d.sec + d.min * 60 + d.hour * 3600)
        (years_days k + d.yday)
        k
        d.yday
        (month_table (leap k))
        d.month
      ≡ d
  date_of_lem =
      let (sec, min, hour) = time_fields d.sec d.min d.hour v.sec v.min v.hour in
      let day : (1 + d.yday - get_or (month_table (leap k)) (d.month - 1) 0) % 2 ^ 8 ≡ d.day =
        rw v.yday (omega (arith, v.first, v.narrow)) in
      let yday : d.yday % 2 ^ 16 ≡ d.yday = omega (arith, year_length-le) in
      λ i. record {
        year = (sym v.year) i;
        us = d.us;
        sec = sec i;
        min = min i;
        hour = hour i;
        day = day i;
        wday = (sym v.wday) i;
        month = d.month;
        yday = yday i;
      }

weekday_value :
    (d e x y w : ℕ)
    → 0 < d
    → y ≡ x + (d - 1)
    → w ≡ (e + y + 4) % 7
    → let v : ℕ = if d + (e + x) == 0 then 6 else (d + (e + x) - 1) % 7 in
      (v ≢ w) × ((v + 4) % 7 ≡ w)
weekday_value d e x y w h p q = (ground arith, ground arith)

-- Every valid date of the years 1970 to 3431, with a leap year every fourth one, is recovered from its
-- time in microseconds: `tdate_parseTime` undoes `ttime_parseDate`.
pub parse_time-parse_date : (d : TDate) (k : ℕ) → IsDate d k → parse_time (parse_date d) ≡ some d
unfolding parse_time
parse_time-parse_date d k v =
    let (us, secs, days) =
      time_split d.us d.sec d.min d.hour (years_days k + d.yday) v.us v.sec v.min v.hour in
    let (years, day) = epoch_years_lem k d.yday v.era (in_year d k v) in
    rw
      (
        parse_date_lem d k v,
        us,
        secs,
        days,
        years,
        day,
        find_month_lem (leap k) d.yday d.month v.month v.in_range,
      )
      (ap some (date_of_lem d k v))

-- The day of the week that `time_install` computes is never the one that `tdate_parseTime` computes
-- of the same date: it is four days off.
pub wday_mismatch :
    (d : TDate) (k : ℕ)
    → IsDate d k
    → let w =
        compute_week_day_from_days (d.day + compute_days_for_month_with_year d.month d.year) in
      (w ≢ d.wday) × ((w + 4) % 7 ≡ d.wday)
unfolding compute_days_for_month_with_year compute_days_for_month compute_week_day_from_days
wday_mismatch d k v =
    rw (v.year, compute_days-years k (omega (arith, v.era)), table_if (leap k) (d.month - 1))
      (weekday_value d.day (years_days k) _ d.yday d.wday v.first v.yday v.wday)
