-- ===== src/Devices/Timer.antt =====
-- The timer: kernel/src/devices/timer.c.
use ogos.Prelude.{ℕ, ◌/◌, ◌^◌, bit_and, List, [], ◌∷◌, leb, if◌then◌else◌}
use ogos.Prelude.Words.{add32}

-- `tick` as an unsigned word, and the size of the input.
pub record Timer : Type 0 where
  pub tick : ℕ
  pub in_size : ℕ

-- STDIO_SIZE is 4096.
pub timer_callback : Timer → Timer
timer_callback t = record t {
  tick = add32 t.tick 1;
  in_size = if leb 4096 t.in_size then 0 else t.in_size;
}

-- The writes to ports, in their order: TIMER_QUOTIENT over TIMER_FREQ, low byte first.
pub init_timer : List (ℕ × ℕ)
init_timer =
    let divisor = 1193180 / 1000 in
    (0x43, 0x36) ∷ (0x40, bit_and divisor 0xFF) ∷ (0x40, bit_and (divisor / 2 ^ 8) 0xFF) ∷ []

pub timer_get_tick : Timer → ℕ
timer_get_tick t = t.tick
