-- ===== src/Cpu/Irq.antt =====
-- Device interrupts: kernel/src/cpu/irq.c. What a read of a port gives is an argument, a function of
-- the writes made before, the last one first; so is what a handler does. Handlers are addresses.
pub mod Acks
pub mod Masks
use ogos.Prelude.{
  ℕ, zero, suc, ◌+◌, ◌*◌, ◌-◌, ◌/◌, ◌^◌, ◌%◌, bit_and, bit_or, Bool, true, false, not, ◌&&◌, ◌||◌,
  List, [], ◌∷◌, Option, none, some, ltb, leb, ◌==◌, if◌then◌else◌,
}
use ogos.Prelude.Words.{u8, u16}
use ogos.Prelude.Bits.{complement}

pub data Message : Type 0 where
  unhandled : ℕ → Message
  registered : ℕ → Message

-- `irq_handlers`, the processor's interrupt flag, the writes to ports and the messages printed, the
-- last one first.
pub record Irq : Type 0 where
  pub irq_handlers : ℕ → ℕ
  pub interrupts : Bool
  pub ports : List (ℕ × ℕ)
  pub messages : List Message

pub outportb : ℕ → ℕ → Irq → Irq
outportb port value m = record m { ports = (port, value) ∷ m.ports }

-- 0x20 and 0xA0 are PIC1_CMD and PIC2_CMD, 0x20 is PIC_EOI, 39 is IRQ7.
pub irq_send_eoi : ℕ → Irq → Irq
irq_send_eoi irq m =
    let m1 = if ltb 39 irq then outportb 0xA0 0x20 m else m in outportb 0x20 0x20 m1

pub irq_remap : Irq → Irq
irq_remap m =
    let m1 = outportb 0xA0 0x11 (outportb 0x20 0x11 m) in
    let m2 = outportb 0xA1 0x28 (outportb 0x21 0x20 m1) in
    let m3 = outportb 0xA1 0x02 (outportb 0x21 0x04 m2) in
    let m4 = outportb 0xA1 0x01 (outportb 0x21 0x01 m3) in outportb 0xA1 0x0 (outportb 0x21 0x0 m4)

-- The part of `irq_handler` behind the test for spurious interrupts.
pub acknowledge : (ℕ → Irq → Irq) → ℕ → Irq → Irq
acknowledge handler_run irq m =
    let m1 = irq_send_eoi irq m in
    let handler = m1.irq_handlers (irq - 32) in
    let m2 =
      if handler == 0
      then record m1 { messages = unhandled (irq - 32) ∷ m1.messages }
      else handler_run handler m1 in
    record m2 { interrupts = true }

module _ (inportb : List (ℕ × ℕ) → ℕ → ℕ) where
  -- 0x0B is PIC_ISR: the reads that follow give the interrupts in service.
  pub irq_get_isr : Irq → Irq × ℕ
  irq_get_isr m =
      let m1 = outportb 0xA0 0x0B (outportb 0x20 0x0B m) in
      (m1, u16 (bit_or (u8 (inportb m1.ports 0xA0) * 2 ^ 8) (u8 (inportb m1.ports 0x20))))

module _ (inportb : List (ℕ × ℕ) → ℕ → ℕ) (handler_run : ℕ → Irq → Irq) where
  -- Where the assertion fails, or the interrupt is below the table of handlers, there is no result.
  pub irq_handler : ℕ → Irq → Option Irq
  irq_handler irq m =
      if ltb 47 irq || ltb irq 32
      then none
      else if (irq == 39) || (irq == 47)
      then (let r = irq_get_isr inportb m in
          if bit_and r.1 (2 ^ (irq - 32)) == 0
          then some (if irq == 47 then irq_send_eoi 32 r.0 else r.0)
          else some (acknowledge handler_run irq r.0))
      else some (acknowledge handler_run irq m)

pub irq_register_handler : ℕ → ℕ → Irq → Option Irq
irq_register_handler irq handler m =
    if ltb irq 32 || ltb 47 irq
    then none
    else if m.irq_handlers (irq - 32) == 0
    then some (record m {
      irq_handlers = λ n. if irq - 32 == n then handler else m.irq_handlers n;
      interrupts = true;
    })
    else some (record m { messages = registered irq ∷ m.messages; interrupts = true })

-- The port of the mask that an interrupt is in, and its place there: `pic` and `irq` of the two
-- functions below.
unfoldable pub pic_data : ℕ → ℕ × ℕ
pic_data irq = if ltb irq 8 then (0x21, irq) else (0xA1, irq - 8)

module _ (inports : List (ℕ × ℕ) → ℕ → ℕ) where
  -- Masks are 16 bits wide here.
  pub irq_mask : ℕ → Irq → Irq
  irq_mask irq m =
      let (pic, place) = pic_data irq in
      let mask = u16 (inports m.ports pic) in outportb pic (u16 (bit_or mask (2 ^ place))) m

  -- The processor shifts by the low five bits of the amount.
  pub irq_unmask : ℕ → Irq → Irq
  irq_unmask irq m =
      let (pic, _) = pic_data irq in
      let mask = u16 (inports m.ports pic) in
      outportb pic (u16 (bit_and mask (complement 32 (2 ^ (mask % 32))))) m
