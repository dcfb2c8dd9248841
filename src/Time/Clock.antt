-- ===== src/Time/Clock.antt =====
-- The running clock: the periodic interrupt, and the time and the date that it keeps.
use ogos.Prelude.{
  ℕ, zero, suc, ◌+◌, ◌*◌, ◌/◌, ◌%◌, ◌^◌, ◌<◌, ◌≡◌, arith, ◌==◌, if◌then◌else◌, Option,
}
use ogos.Prelude.Words.{add32}
use ogos.Time.{TDate, parse_time}

-- `ticks` and `time_us`
pub record Clock : Type 0 where
  pub ticks : ℕ
  pub time_us : ℕ

-- `RTC_FREQ` with `RTC_RATE` 3
abbrev pub rtc_freq : ℕ
rtc_freq = 8192

-- `(double) ticks * RTC_US` is exact: RTC_US is 1000000 / 8192 = 15625 / 128, and the products of
-- fewer than 2^32 ticks fit the 53 bits of a double. The conversion drops the fraction.
pub query_time : Clock → ℕ
query_time c = (c.time_us + c.ticks * 15625 / 128) % 2 ^ 64

-- `tlibs_queryTime` answers 2, so `ttime` returns the time and `tdate` parses it.
pub ttime : Clock → ℕ
unfolding query_time
ttime c = query_time c

pub tdate : Clock → Option TDate
unfolding query_time
tdate c = parse_time (query_time c)

-- What the interrupt prints: nothing, or the date of a new second.
pub data Shown : Type 0 where
  nothing : Shown
  date : Option TDate → Shown

pub rtc_handler : Clock → Clock × Shown
rtc_handler c =
    let ticks = add32 c.ticks 1 in
    if ticks == rtc_freq
    then (let c' : Clock = record { ticks = 0; time_us = (c.time_us + 1000000) % 2 ^ 64 } in
        (c', date (tdate c')))
    else (record c { ticks = ticks }, nothing)

-- the clock after n interrupts
pub run : ℕ → Clock → Clock
run zero c = c
run (suc n) c = (rtc_handler (run n c)).0

-- Started at a whole second, the clock after n interrupts has counted n / 8192 seconds.
run_lem :
    (n start : ℕ)
    → start + (n + 8192) * 15625 / 128 < 2 ^ 64
    → let c = run n (record { ticks = 0; time_us = start }) in
      (c.ticks ≡ n % 8192) × (c.time_us ≡ start + n / 8192 * 1000000)
unfolding run rtc_handler
run_lem zero start h = omega arith
run_lem (suc n) start h = ground (arith, run_lem n start)

-- Started at a whole second, the time after n interrupts is the start plus n periods of 1 / 8192
-- second, in whole microseconds, as long as it stays below 2^64.
pub ttime-run :
    (n start : ℕ)
    → start + (n + 8192) * 15625 / 128 < 2 ^ 64
    → ttime (run n (record { ticks = 0; time_us = start })) ≡ start + n * 15625 / 128
unfolding ttime
ttime-run n start h = omega (arith, run_lem n start h)
