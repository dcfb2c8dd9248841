-- ===== src/Cpu/Gdt/Segments.antt =====
-- How the processor reads the descriptors that are written.
use ogos.Prelude.{
  ℕ, ◌+◌, ◌*◌, ◌/◌, ◌%◌, ◌^◌, ◌<◌, ◌≡◌, ◌≢◌, refl, Bool, true, false, arith, bit_and, bit_or, ◌==◌,
  all_below, all_below_sound, ==_iff,
}
use ogos.Prelude.Bits.{bit_and-mask}
use ogos.Cpu.Gdt.{GdtEntry, Gdt, gdt_set_entry}

-- the segment's base and limit, and the four flags, as the processor puts them together
abbrev pub base_of : GdtEntry → ℕ
base_of e = e.base_low + e.base_middle * 2 ^ 16 + e.base_high * 2 ^ 24

abbrev pub limit_of : GdtEntry → ℕ
limit_of e = e.limit_low + e.granularity % 16 * 2 ^ 16

abbrev pub flags_of : GdtEntry → ℕ
flags_of e = e.granularity / 16

abbrev nibbles : ℕ → Bool
nibbles x = all_below 16 (λ l. bit_or l (bit_and x 0xF0) == l + x / 16 * 16)

nibbles_hold : all_below 256 nibbles ≡ true
unfolding all_below
nibbles_hold = refl

nibble : (x l : ℕ) → x < 256 → l < 16 → bit_or l (bit_and x 0xF0) ≡ l + x / 16 * 16
nibble x l hx hl = (==_iff (bit_or l (bit_and x 0xF0)) (l + x / 16 * 16)).0 (
    all_below_sound 16 (λ l. bit_or l (bit_and x 0xF0) == l + x / 16 * 16) l
      (all_below_sound 256 nibbles x nibbles_hold hx) hl)

-- The processor reads back the base, the low 20 bits of the limit, the flags and the access byte
-- of an entry that was written, and the other entries are as before.
pub gdt_set_entry-read :
    (num base limit access granularity : ℕ) (g : Gdt)
    → base < 2 ^ 32
    → limit < 2 ^ 32
    → granularity < 2 ^ 8
    → (n : ℕ) → num ≢ n
    → (base_of ((gdt_set_entry num base limit access granularity g).gdt_entries num) ≡ base)
      × (limit_of ((gdt_set_entry num base limit access granularity g).gdt_entries num)
          ≡ limit % 2 ^ 20)
      × (flags_of ((gdt_set_entry num base limit access granularity g).gdt_entries num)
          ≡ granularity / 16)
      × (((gdt_set_entry num base limit access granularity g).gdt_entries num).access ≡ access)
      × ((gdt_set_entry num base limit access granularity g).gdt_entries n ≡ g.gdt_entries n)
unfolding gdt_set_entry
gdt_set_entry-read num base limit access granularity g hb hl hg n other =
    let same : (num == num) ≡ true = ground arith in
    let apart : (num == n) ≡ false = ground arith in
    let low = bit_and-mask base 16 in
    let middle = bit_and-mask (base / 2 ^ 16) 8 in
    let high = bit_and-mask (base / 2 ^ 24) 8 in
    let limit_low = bit_and-mask limit 16 in
    let limit_high = bit_and-mask (limit / 2 ^ 16) 4 in
    let flags = nibble granularity (bit_and (limit / 2 ^ 16) 0x0F) hg (omega arith) in
    (
      rw same (omega arith),
      rw same (omega arith),
      rw same (omega arith),
      rw same refl,
      rw apart refl,
    )
