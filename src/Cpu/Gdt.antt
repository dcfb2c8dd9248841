-- ===== src/Cpu/Gdt.antt =====
-- The global descriptor table: kernel/src/cpu/gdt.c, kernel/include/kernel/gdt.h. A write through an
-- index is an update of a function; the addresses of the tables are arguments.
pub mod Segments
use ogos.Prelude.{ℕ, ◌+◌, ◌-◌, ◌*◌, ◌/◌, ◌^◌, bit_and, bit_or, Bool, ◌==◌, if◌then◌else◌}
use ogos.Prelude.Words.{u8, u16, add32}

-- `gdt_entry_t`
pub record GdtEntry : Type 0 where
  pub limit_low : ℕ
  pub base_low : ℕ
  pub base_middle : ℕ
  pub access : ℕ
  pub granularity : ℕ
  pub base_high : ℕ

-- The fields of `tss_entry_t` that the code writes with other values than 0.
pub record Tss : Type 0 where
  pub esp0 : ℕ
  pub ss0 : ℕ
  pub es : ℕ
  pub cs : ℕ
  pub ss : ℕ
  pub ds : ℕ
  pub fs : ℕ
  pub gs : ℕ
  pub iomap_base : ℕ

-- The static variables of gdt.c, and the operand of `gdt_load`.
pub record Gdt : Type 0 where
  pub gdt_entries : ℕ → GdtEntry
  pub tss : Tss
  pub limit : ℕ
  pub base : ℕ

pub gdt_set_entry : ℕ → ℕ → ℕ → ℕ → ℕ → Gdt → Gdt
gdt_set_entry num base limit access granularity g =
    let entry : GdtEntry = record {
      base_low = bit_and base 0xFFFF;
      base_middle = bit_and (base / 2 ^ 16) 0xFF;
      base_high = bit_and (base / 2 ^ 24) 0xFF;
      limit_low = bit_and limit 0xFFFF;
      granularity = bit_or (bit_and (limit / 2 ^ 16) 0x0F) (bit_and granularity 0xF0);
      access = access;
    } in
    record g { gdt_entries = λ n. if num == n then entry else g.gdt_entries n }

-- `sizeof(tss)` is 104.
pub gdt_write_tss : ℕ → ℕ → ℕ → ℕ → Gdt → Gdt
gdt_write_tss tss_address num ss0 esp0 g =
    record (gdt_set_entry num tss_address (add32 tss_address 104) 0xE9 0x00 g) {
      tss = record {
        esp0 = esp0;
        ss0 = ss0;
        es = 0x13;
        cs = 0x0b;
        ss = 0x13;
        ds = 0x13;
        fs = 0x13;
        gs = 0x13;
        iomap_base = 104;
      };
    }

pub gdt_set_kernel_stack : ℕ → Gdt → Gdt
gdt_set_kernel_stack stack g = record g { tss = record g.tss { esp0 = stack } }

-- `sizeof(gdt_entry_t)` is 8.
pub init_gdt : ℕ → ℕ → Gdt → Gdt
init_gdt entries_address tss_address g =
    let g0 : Gdt = record g { limit = 8 * 6 - 1; base = entries_address } in
    let g1 = gdt_set_entry 0 0 0 0 0 g0 in
    let g2 = gdt_set_entry 1 0 0xFFFFFFFF 0x9A 0xCF g1 in
    let g3 = gdt_set_entry 2 0 0xFFFFFFFF 0x92 0xCF g2 in
    let g4 = gdt_set_entry 3 0 0xFFFFFFFF 0xFA 0xCF g3 in
    let g5 = gdt_set_entry 4 0 0xFFFFFFFF 0xF2 0xCF g4 in gdt_write_tss tss_address 5 0x10 0x00 g5
