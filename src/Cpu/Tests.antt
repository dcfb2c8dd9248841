-- ===== src/Cpu/Tests.antt =====
-- Examples of the theorems on descriptor tables and interrupts.
use ogos.Prelude.{ℕ, ◌≡◌, refl, some, false, [], arith}
use ogos.Cpu.Gdt.{Gdt, gdt_set_entry}
use ogos.Cpu.Gdt.Segments.{base_of, limit_of, flags_of, gdt_set_entry-read}
use ogos.Cpu.Idt.{Idt, no_entry, init_idt, init_irq_entries}
use ogos.Cpu.Idt.Vectors.{IsGate, idt-stubs}
use ogos.Cpu.Irq.{Irq, irq_handler}
use ogos.Cpu.Irq.Acks.{eois, irq_handler-eois}
use ogos.Cpu.Isr.{Isr, Handled, done}

abbrev empty_gdt : Gdt
empty_gdt = record {
  gdt_entries = λ _. record {
    limit_low = 0;
    base_low = 0;
    base_middle = 0;
    access = 0;
    granularity = 0;
    base_high = 0;
  };
  tss = record {
    esp0 = 0;
    ss0 = 0x10;
    es = 0x10;
    cs = 0x08;
    ss = 0;
    ds = 0x13;
    fs = 0x13;
    gs = 0x13;
    iomap_base = 0;
  };
  limit = 0;
  base = 0;
}

gdt_set_entry-read_example :
    let g = gdt_set_entry 1 0x12345678 0xFFFFFFFF 0x9A 0xCF empty_gdt in
    (base_of (g.gdt_entries 1) ≡ 0x12345678)
    × (limit_of (g.gdt_entries 1) ≡ 0xFFFFF)
    × (flags_of (g.gdt_entries 1) ≡ 12)
    × ((g.gdt_entries 1).access ≡ 0x9A)
    × (g.gdt_entries 2 ≡ empty_gdt.gdt_entries 2)
gdt_set_entry-read_example =
    gdt_set_entry-read 1 0x12345678 0xFFFFFFFF 0x9A 0xCF empty_gdt (omega arith) (omega arith)
      (omega arith) 2 (omega arith)

abbrev empty_idt : Idt
empty_idt = record { idt_entries = λ _. no_entry; limit = 0; base = 0 }

idt-stubs_example :
    IsGate 0x2000
      ((init_irq_entries (λ _. 0x2000) (init_idt 0 (λ _. 0x1000) empty_idt)).idt_entries 33)
idt-stubs_example =
    idt-stubs 0 33 (λ _. 0x1000) (λ _. 0x2000) empty_idt (λ _. omega arith) (λ _. omega arith)

abbrev quiet : ℕ → Irq → Irq
quiet h m = m

abbrev idle : Irq
idle = record { irq_handlers = λ _. 5; interrupts = false; ports = []; messages = [] }

-- interrupt 44, of the second controller
irq_handler-eois_example :
    (m' : Irq) × (irq_handler (λ _ _. 0) quiet 44 idle ≡ some m')
    × (eois 0x20 m'.ports ≡ 1)
    × (eois 0xA0 m'.ports ≡ 1)
irq_handler-eois_example =
    irq_handler-eois (λ _ _. 0) quiet 44 idle (omega arith) (omega arith) (λ _ _ _. refl)

abbrev no_handlers : Isr
no_handlers = record { isr_handlers = λ _. 0; syscall_handlers = λ _. 0; notes = [] }

abbrev returns : ℕ → ℕ → ℕ → Isr → Handled
returns h v a m = done m
