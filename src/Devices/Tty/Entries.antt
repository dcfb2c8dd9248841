-- ===== src/Devices/Tty/Entries.antt =====
-- Entries of the screen and their parts.
use ogos.Prelude.{ℕ, ◌+◌, ◌*◌, ◌/◌, ◌%◌, ◌^◌, ◌<◌, ◌≡◌, refl, ap₂, bit_and, arith, true, ltb}
use ogos.Prelude.Bits.{bit_or_shift, bit_and-mask, bit_and_even}
use ogos.Devices.Tty.{tty_make_color, tty_make_entry, get_entry_info, recolor}

pub tty_make_color_lem : (fg bg : ℕ) → fg < 16 → bg < 16 → tty_make_color fg bg ≡ bg * 16 + fg
unfolding tty_make_color
tty_make_color_lem fg bg h k = omega (arith, bit_or_shift 4 fg bg h)

pub tty_make_entry_lem :
    (c color : ℕ) → c < 128 → color < 256 → tty_make_entry c color ≡ color * 256 + c
unfolding tty_make_entry
tty_make_entry_lem c color h k =
    let plain : ltb c 128 ≡ true = ground arith in
    rw plain (omega (arith, bit_or_shift 8 c color (omega arith)))

module _ (c fg bg : ℕ) (hc : c < 128) (hf : fg < 16) (hb : bg < 16) where
  entry_value : tty_make_entry c (tty_make_color fg bg) ≡ (bg * 16 + fg) * 256 + c
  entry_value = omega (
    arith,
    tty_make_color_lem fg bg hf hb,
    tty_make_entry_lem c (tty_make_color fg bg) hc (omega (arith, tty_make_color_lem fg bg hf hb)),
  )

  -- An entry made of an ASCII character and two of the 16 colors gives back the character and the two
  -- colors.
  pub get_entry_info-tty_make_entry :
      get_entry_info (tty_make_entry c (tty_make_color fg bg)) ≡ record {
        entry = tty_make_entry c (tty_make_color fg bg);
        c = c;
        color = tty_make_color fg bg;
        color_fg = fg;
        color_bg = bg;
      }
  unfolding get_entry_info
  get_entry_info-tty_make_entry =
      let e = tty_make_entry c (tty_make_color fg bg) in
      ground (
        arith,
        entry_value,
        tty_make_color_lem fg bg hf hb,
        bit_and-mask e 8,
        bit_and-mask (e / 2 ^ 8) 4,
      )

fg_bits : (e : ℕ) → bit_and e 0x0F00 / 2 ^ 8 ≡ e / 2 ^ 8 % 16
fg_bits e =
    let e1 = e / 2 in
    let e2 = e1 / 2 in
    let e3 = e2 / 2 in
    let e4 = e3 / 2 in
    let e5 = e4 / 2 in
    let e6 = e5 / 2 in
    let e7 = e6 / 2 in
    omega (
      arith,
      bit_and_even e 3840 refl,
      bit_and_even e1 1920 refl,
      bit_and_even e2 960 refl,
      bit_and_even e3 480 refl,
      bit_and_even e4 240 refl,
      bit_and_even e5 120 refl,
      bit_and_even e6 60 refl,
      bit_and_even e7 30 refl,
      bit_and-mask (e7 / 2) 4,
    )

-- A new background keeps the character and the other color.
pub recolor_lem :
    (c fg old bg : ℕ)
    → c < 128
    → fg < 16
    → old < 16
    → recolor bg (tty_make_entry c (tty_make_color fg old))
      ≡ tty_make_entry c (tty_make_color fg bg)
unfolding recolor
recolor_lem c fg old bg hc hf ho =
    let e = tty_make_entry c (tty_make_color fg old) in
    let value = entry_value c fg old hc hf ho in
    let same_c : bit_and e 0xFF ≡ c = omega (arith, value, bit_and-mask e 8) in
    let same_fg : bit_and e 0x0F00 / 2 ^ 8 ≡ fg = omega (arith, value, fg_bits e) in
    ap₂ (λ c' fg'. tty_make_entry c' (tty_make_color fg' bg)) same_c same_fg
