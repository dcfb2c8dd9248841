-- ===== src/Cpu/Irq/Acks.antt =====
-- How often each interrupt controller is told that an interrupt has ended.
use ogos.Prelude.{
  ℕ, ◌+◌, ◌-◌, ◌≤◌, ◌≡◌, refl, ◌∙◌, Bool, false, not, ◌&&◌, ◌||◌, List, [], ◌∷◌, some, arith, ltb,
  ◌==◌, if◌then◌else◌, Bool-cases, inl, inr,
}
use ogos.Prelude.Bits.{test_bit, bit_and-pow_test}
use ogos.Cpu.Irq.{Irq, outportb, irq_send_eoi, irq_get_isr, acknowledge, irq_handler}

-- the number of ends of interrupts written to a controller's command port
abbrev pub eois : ℕ → List (ℕ × ℕ) → ℕ
eois pic [] = 0
eois pic (w ∷ ws) = (if (w.0 == pic) && (w.1 == 0x20) then 1 else 0) + eois pic ws

module _ (inportb : List (ℕ × ℕ) → ℕ → ℕ) (handler_run : ℕ → Irq → Irq) where
  -- the controllers have the interrupt in service, or it is none that they make up
  abbrev pub is_real : ℕ → Irq → Bool
  is_real irq m =
      not ((irq == 39) || (irq == 47)) || (test_bit (irq_get_isr inportb m).1 (irq - 32) == 1)

  acknowledge-eois :
      (irq : ℕ) (m : Irq)
      → ((pic h : ℕ) (m : Irq) → eois pic (handler_run h m).ports ≡ eois pic m.ports)
      → (eois 0x20 (acknowledge handler_run irq m).ports ≡ 1 + eois 0x20 m.ports)
        × (eois 0xA0 (acknowledge handler_run irq m).ports
            ≡ (if ltb 39 irq then 1 else 0) + eois 0xA0 m.ports)
  unfolding acknowledge irq_send_eoi outportb
  acknowledge-eois irq m quiet =
      let run_master = quiet 0x20 (m.irq_handlers (irq - 32)) (irq_send_eoi irq m) in
      let run_slave = quiet 0xA0 (m.irq_handlers (irq - 32)) (irq_send_eoi irq m) in
      elim (Bool-cases (ltb 39 irq)) [
        | inl slave ↦ elim (Bool-cases (m.irq_handlers (irq - 32) == 0)) [
          | inl free ↦ (rw (slave, free) (omega arith), rw (slave, free) (omega arith))
          | inr used ↦
              let to_master = rw slave at run_master in
              let to_slave = rw slave at run_slave in
              (rw (slave, used) (omega arith), rw (slave, used) (omega arith))
        ]
        | inr master ↦ elim (Bool-cases (m.irq_handlers (irq - 32) == 0)) [
          | inl free ↦ (rw (master, free) (omega arith), rw (master, free) (omega arith))
          | inr used ↦
              let to_master = rw master at run_master in
              let to_slave = rw master at run_slave in
              (rw (master, used) (omega arith), rw (master, used) (omega arith))
        ]
      ]

  -- The master controller is told once of each interrupt that is real and of a spurious one of the
  -- slave, the slave once of each real one of its own, as long as the handlers tell them nothing.
  pub irq_handler-eois :
      (irq : ℕ) (m : Irq)
      → 32 ≤ irq
      → irq ≤ 47
      → ((pic h : ℕ) (m : Irq) → eois pic (handler_run h m).ports ≡ eois pic m.ports)
      → (m' : Irq) × (irq_handler inportb handler_run irq m ≡ some m')
        × (eois 0x20 m'.ports ≡ (if is_real irq m || (irq == 47) then 1 else 0) + eois 0x20 m.ports)
        × (eois 0xA0 m'.ports ≡ (if is_real irq m && ltb 39 irq then 1 else 0) + eois 0xA0 m.ports)
  unfolding irq_handler irq_get_isr irq_send_eoi outportb
  irq_handler-eois irq m low high quiet =
      let inside : (ltb 47 irq || ltb irq 32) ≡ false = ground arith in
      let r = irq_get_isr inportb m in
      let test = bit_and-pow_test r.1 (irq - 32) in
      elim (Bool-cases ((irq == 39) || (irq == 47))) [
        | inl edge ↦ elim (Bool-cases (test_bit r.1 (irq - 32) == 1)) [
          | inl serviced ↦
              let counts = acknowledge-eois irq r.0 quiet in
              (
                acknowledge handler_run irq r.0,
                rw (inside, edge, test, serviced) refl,
                rw (edge, serviced) (counts.0 ∙ omega arith),
                rw (edge, serviced) (counts.1 ∙ omega arith),
              )
          | inr spurious ↦ (
            (if irq == 47 then irq_send_eoi 32 r.0 else r.0),
            rw (inside, edge, test, spurious) refl,
            rw (edge, spurious) (ground arith),
            rw (edge, spurious) (ground arith),
          )
        ]
        | inr plain ↦
            let counts = acknowledge-eois irq m quiet in
            (
              acknowledge handler_run irq m,
              rw (inside, plain) refl,
              rw plain counts.0,
              rw plain counts.1,
            )
      ]
