-- ===== src/Time/Rtc.antt =====
-- `time_install`: the registers of the real-time clock, and the time that they stand for.
use ogos.Prelude.{
  ℕ, ◌+◌, ◌*◌, ◌/◌, ◌%◌, ◌^◌, ◌<◌, ◌≡◌, refl, ap₂, List, [], ◌∷◌, Bool, true, false, ◌&&◌, not,
  arith, leb, ◌==◌, if◌then◌else◌, Option, none, some, bit_and, bit_or, all_below, all_below_sound,
  ==_iff,
}
use ogos.Time.{
  TDate, compute_week_day_from_days, compute_days_for_month_with_year, compute_year_day, parse_date,
}

-- The seven time registers, as one reading.
pub record Reading : Type 0 where
  pub second : ℕ
  pub minute : ℕ
  pub hour : ℕ
  pub day : ℕ
  pub month : ℕ
  pub year : ℕ
  pub century : ℕ

pub same : Reading → Reading → Bool
same a b =
    a.second == b.second
    && a.minute == b.minute
    && a.hour == b.hour
    && a.day == b.day
    && a.month == b.month
    && a.year == b.year
    && a.century == b.century

-- The `do` loop: it reads until two readings agree. The list holds the readings to come.
pub settle : Reading → List Reading → Option Reading
settle last [] = none
settle last (r ∷ rs) = let rest = settle r rs in if same last r then some r else rest

abbrev pub from_bcd : ℕ → ℕ
from_bcd x = bit_and x 0x0F + x / 16 * 10

-- The hour keeps its afternoon bit.
abbrev pub hour_from_bcd : ℕ → ℕ
hour_from_bcd x = bit_or (bit_and x 0x0F + bit_and x 0x70 / 16 * 10) (bit_and x 0x80)

pub convert_bcd : ℕ → Reading → Reading
convert_bcd register_b r =
    if bit_and register_b 0x04 == 0
    then record {
      second = from_bcd r.second;
      minute = from_bcd r.minute;
      hour = hour_from_bcd r.hour;
      day = from_bcd r.day;
      month = from_bcd r.month;
      year = from_bcd r.year;
      century = from_bcd r.century % 2 ^ 8;
    }
    else r

abbrev pub to_24 : ℕ → ℕ → ℕ
to_24 register_b hour =
    if (bit_and register_b 0x02 == 0) && not (bit_and hour 0x80 == 0)
    then (bit_and hour 0x7F + 12) % 24
    else hour

-- The date of a settled reading. `century_register` is never 0, so the year takes the century.
pub decode : ℕ → Reading → TDate
decode register_b reading =
    let r = convert_bcd register_b reading in
    let year = r.year + r.century * 100 in
    record {
      us = 0;
      sec = r.second % 2 ^ 8;
      min = r.minute % 2 ^ 8;
      hour = to_24 register_b r.hour % 2 ^ 8;
      day = r.day % 2 ^ 8;
      month = r.month % 2 ^ 8;
      year = year;
      wday =
          compute_week_day_from_days (r.day + compute_days_for_month_with_year r.month year)
          % 2 ^ 8;
      yday = compute_year_day r.day r.month year % 2 ^ 16;
    }

-- The new `time_us`, from the first reading, the readings to come and the status register B.
pub time_install : Reading → List Reading → ℕ → Option ℕ
time_install first rest register_b = elim (settle first rest) [
  | none ↦ none
  | some r ↦ some (parse_date (decode register_b r))
]

-- What the hardware shows for a number below 100: the number, or its two decimal digits.
abbrev pub shown : Bool → ℕ → ℕ
shown binary v = if binary then v else v / 10 * 16 + v % 10

-- What it shows for an hour on the clock of twelve hours.
abbrev pub shown_12 : Bool → ℕ → ℕ
shown_12 binary h =
    (if leb 12 h then 0x80 else 0) + shown binary (if h % 12 == 0 then 12 else h % 12)

-- status register B: bit 2 for binary values, bit 1 for 24 hours
abbrev pub status_b : Bool → Bool → ℕ
status_b binary full_day = (if binary then 4 else 0) + (if full_day then 2 else 0)

bcd_table : all_below 100 (λ v. from_bcd (shown false v) == v) ≡ true
unfolding all_below
bcd_table = refl

from_bcd_lem : (v : ℕ) → v < 100 → from_bcd (shown false v) ≡ v
from_bcd_lem v h = (==_iff _ v).0 (all_below_sound 100 _ v bcd_table h)

-- The hours that the code makes of the twelve-hour clock.
abbrev pub decoded_12 : ℕ → ℕ
decoded_12 h = if h == 0 then 12 else if h == 12 then 0 else h

hour_12_bcd : all_below 24 (λ h. to_24 0 (hour_from_bcd (shown_12 false h)) == decoded_12 h) ≡ true
unfolding all_below
hour_12_bcd = refl

hour_12_binary : all_below 24 (λ h. to_24 4 (shown_12 true h) == decoded_12 h) ≡ true
unfolding all_below
hour_12_binary = refl

hour_24_bcd : all_below 24 (λ h. to_24 2 (hour_from_bcd (shown false h)) == h) ≡ true
unfolding all_below
hour_24_bcd = refl

-- On a clock of twelve hours the decoded hour is right but for noon, which becomes 0, and for
-- midnight, which becomes 12; with values in decimal digits and with binary ones.
pub hour-decode_12 :
    (binary : Bool) (r : Reading) (h : ℕ)
    → h < 24
    → r.hour ≡ shown_12 binary h
    → (decode (status_b binary false) r).hour ≡ decoded_12 h
unfolding decode convert_bcd
hour-decode_12 true r h lt e =
    rw (e, (==_iff _ (decoded_12 h)).0 (all_below_sound 24 _ h hour_12_binary lt)) (ground arith)
hour-decode_12 false r h lt e =
    rw (e, (==_iff _ (decoded_12 h)).0 (all_below_sound 24 _ h hour_12_bcd lt)) (ground arith)

-- On a clock of 24 hours the second, minute, hour, day, month and four-digit year are decoded to the
-- values that the hardware shows, in decimal digits or binary, below 100 and the hour below 24.
pub decode_24 :
    (binary : Bool) (r : Reading) (s mi h d m y c : ℕ)
    → s < 100
    → mi < 100
    → h < 24
    → d < 100
    → m < 100
    → y < 100
    → c < 100
    → r ≡ record {
      second = shown binary s;
      minute = shown binary mi;
      hour = shown binary h;
      day = shown binary d;
      month = shown binary m;
      year = shown binary y;
      century = shown binary c;
    }
    → let t = decode (status_b binary true) r in
      (t.sec ≡ s)
      × (t.min ≡ mi)
      × (t.hour ≡ h)
      × (t.day ≡ d)
      × (t.month ≡ m)
      × (t.year ≡ y + c * 100)
unfolding decode convert_bcd
decode_24 true r s mi h d m y c hs hmi hh hd hm hy hc e =
    rw e (omega arith, omega arith, omega arith, omega arith, omega arith, refl)
decode_24 false r s mi h d m y c hs hmi hh hd hm hy hc e =
    let byte : (v : ℕ) → v < 100 → from_bcd (shown false v) % 2 ^ 8 ≡ v =
      λ v lt. rw (from_bcd_lem v lt) (omega arith) in
    rw e (
      byte s hs,
      byte mi hmi,
      rw ((==_iff _ h).0 (all_below_sound 24 _ h hour_24_bcd hh)) (omega arith),
      byte d hd,
      byte m hm,
      ap₂ (λ x z. x + z * 100) (from_bcd_lem y hy) (byte c hc),
    )
