-- ===== src/Cpu/Idt.antt =====
-- The interrupt descriptor table: kernel/src/cpu/idt.c, and `init_irq`'s entries of
-- kernel/src/cpu/irq.c. The addresses of the stubs that assembly code provides are arguments.
pub mod Vectors
use ogos.Prelude.{ℕ, zero, suc, ◌+◌, ◌*◌, ◌/◌, ◌-◌, ◌^◌, bit_and, Bool, ◌==◌, if◌then◌else◌}
use ogos.Prelude.Words.{u8}

-- `idt_entry_t`
pub record IdtEntry : Type 0 where
  pub base_low : ℕ
  pub selector : ℕ
  pub zeros : ℕ
  pub flags : ℕ
  pub base_high : ℕ

-- The static variables of idt.c.
pub record Idt : Type 0 where
  pub idt_entries : ℕ → IdtEntry
  pub limit : ℕ
  pub base : ℕ

pub idt_set_entry : ℕ → ℕ → ℕ → ℕ → Idt → Idt
idt_set_entry num base selector flags t =
    let entry : IdtEntry = record {
      base_low = bit_and base 0xFFFF;
      base_high = bit_and (base / 2 ^ 16) 0xFFFF;
      selector = selector;
      zeros = 0;
      flags = flags;
    } in
    record t { idt_entries = λ n. if num == n then entry else t.idt_entries n }

-- The calls `idt_set_entry(v, stub(v), 0x08, 0x8E)` for n vectors from `from` on.
pub set_stubs : (ℕ → ℕ) → ℕ → ℕ → Idt → Idt
set_stubs stub from zero t = t
set_stubs stub from (suc n) t =
    set_stubs stub (suc from) n (idt_set_entry from (stub from) 0x08 0x8E t)

abbrev pub no_entry : IdtEntry
no_entry = record { base_low = 0; selector = 0; zeros = 0; flags = 0; base_high = 0 }

-- `sizeof(idt_entry_t)` is 8; isr v is the address of stub v.
pub init_idt : ℕ → (ℕ → ℕ) → Idt → Idt
init_idt address isr t =
    let t0 : Idt = record { idt_entries = λ _. no_entry; limit = 8 * 256 - 1; base = address } in
    idt_set_entry 48 (isr 48) 0x08 0x8E (set_stubs isr 0 32 t0)

-- irq i is the address of stub i, whose vector is 32 + i.
pub init_irq_entries : (ℕ → ℕ) → Idt → Idt
init_irq_entries irq t = set_stubs (λ v. irq (v - 32)) 32 16 t
