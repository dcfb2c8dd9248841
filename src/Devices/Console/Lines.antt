-- ===== src/Devices/Console/Lines.antt =====
-- Where printed text stands on the screen.
use ogos.Prelude.{
  ℕ, suc, ◌+◌, ◌-◌, ◌*◌, ◌<◌, ◌≤◌, ◌≡◌, refl, ap, ◌∙◌, Bool, true, false, ◌&&◌, ◌||◌, List, [], ◌∷◌,
  some, arith, ltb, leb, ◌==◌, if◌then◌else◌, Bool-cases, inl, inr, length, get_or,
}
use ogos.Libc.Ctype.{isprint}
use ogos.Libc.Stdlib.{char}
use ogos.Devices.Tty.{
  Tty, at_least, tty_make_entry, tty_move_cursor, tty_set_cursor, tty_putchar_at,
}
use ogos.Devices.Ansi.{tty_interpret_ansi, interpret}
use ogos.Devices.Console.{type_char, control, wrap, scroll, tty_putchar, tty_write}
use ogos.Devices.Console.Bounds.{IsOnScreen}

-- the cell that the cursor stands on; behind the last column it is the next row's first
abbrev pub position : Tty → ℕ
position t = t.row * 80 + t.column

abbrev pub all_print : List ℕ → Bool
all_print [] = true
all_print (c ∷ cs) = isprint (char c) && all_print cs

print_range : (c : ℕ) → isprint (char c) ≡ true → (32 ≤ c) × (c < 127)
unfolding isprint
print_range c h = ground arith

control_print : (c : ℕ) (t : Tty) → 32 ≤ c → control c t ≡ t
unfolding control
control_print c t h = ground arith

wrap_print :
    (t : Tty)
    → IsOnScreen t
    → position t < 2000
    → IsOnScreen (wrap t)
      × ((wrap t).column < 80)
      × (position (wrap t) ≡ position t)
      × ((wrap t).buffer ≡ t.buffer)
      × ((wrap t).color ≡ t.color)
unfolding wrap tty_set_cursor tty_move_cursor
wrap_print t on room = elim (Bool-cases (at_least 80 t.column)) [
  | inl full ↦ rw full (
    record {
      below_menu = omega (arith, on.below_menu);
      above_end = ground (arith, on.above_end);
      in_row = omega arith;
      plain = on.plain;
    },
    omega arith,
    ground (arith, on.above_end, on.in_row),
    refl,
    refl,
  )
  | inr free ↦ rw free (on, ground (arith, on.in_row), refl, refl, refl)
]

scroll_print : (t : Tty) → t.row < 25 → scroll t ≡ t
unfolding scroll
scroll_print t h = ground arith

type_print :
    (c : ℕ) (t : Tty) (i : ℕ)
    → IsOnScreen t
    → t.column < 80
    → ((type_char c t).buffer i
        ≡ (if i == position t then tty_make_entry c t.color else t.buffer i))
      × IsOnScreen (type_char c t)
      × (position (type_char c t) ≡ position t + 1)
      × ((type_char c t).color ≡ t.color)
unfolding type_char tty_putchar_at tty_move_cursor
type_print c t i on room =
    let inside : (leb 25 t.row || leb 80 t.column) ≡ false = ground (arith, on.above_end) in
    rw inside (
      ground (arith, on.above_end),
      record {
        below_menu = on.below_menu;
        above_end = on.above_end;
        in_row = omega arith;
        plain = on.plain;
      },
      omega arith,
      refl,
    )

putchar_print :
    (c : ℕ) (t : Tty) (i : ℕ)
    → IsOnScreen t
    → isprint (char c) ≡ true
    → position t < 2000
    → (t' : Tty) × (tty_putchar c t ≡ some t')
      × (t'.buffer i ≡ (if i == position t then tty_make_entry c t.color else t.buffer i))
      × IsOnScreen t'
      × (position t' ≡ position t + 1)
      × (t'.color ≡ t.color)
unfolding tty_putchar tty_interpret_ansi interpret
putchar_print c t i on prints room =
    let (low, high) = print_range c prints in
    let (on1, in_row, at, same, color) = wrap_print t on room in
    let t1 = wrap t in
    let no_escape : (c == 0x1B) ≡ false = ground arith in
    let (cell, on2, at2, color2) = type_print c t1 i on1 in_row in
    (
      type_char c t1,
      rw (control_print c t low, scroll_print t1 on1.above_end, on1.plain, no_escape, prints) refl,
      cell ∙ rw (at, same, color) refl,
      on2,
      at2 ∙ ap (λ n. n + 1) at,
      color2 ∙ color,
    )

-- A cell of a text, from its second character on.
later_cells :
    (p i c color v v1 : ℕ) (cs : List ℕ)
    → v1 ≡ (if i == p then tty_make_entry c color else v)
    → (if leb (p + 1) i && ltb i (p + 1 + length cs)
        then tty_make_entry (get_or cs (i - (p + 1)) 0) color
        else v1)
      ≡ (if leb p i && ltb i (p + length (c ∷ cs))
          then tty_make_entry (get_or (c ∷ cs) (i - p) 0) color
          else v)
later_cells p i c color v v1 cs first = elim (Bool-cases (ltb p i)) [
  | inl behind ↦ let next : i - p ≡ suc (i - (p + 1)) = ground arith in rw next (ground arith)
  | inr not_behind ↦ elim (Bool-cases (i == p)) [
    | inl here ↦ let none_before : i - p ≡ 0 = ground arith in rw none_before (ground arith)
    | inr before ↦ ground arith
  ]
]

-- On a cursor that stands on the screen with no sequence open, printable text that ends before the
-- screen does stands in the cells from the cursor's on, in the current color, over the ends of the
-- rows; no other cell changes, and the cursor stands behind the text.
pub tty_write-cells :
    (cs : List ℕ) (t : Tty) (i : ℕ)
    → IsOnScreen t
    → all_print cs ≡ true
    → position t + length cs ≤ 2000
    → (t' : Tty) × (tty_write cs t ≡ some t')
      × (t'.buffer i ≡ (
          if leb (position t) i && ltb i (position t + length cs)
          then tty_make_entry (get_or cs (i - position t) 0) t.color
          else t.buffer i))
      × (position t' ≡ position t + length cs)
      × IsOnScreen t'
      × (t'.color ≡ t.color)
unfolding tty_write
tty_write-cells [] t i on prints room = (t, refl, ground arith, omega arith, on, refl)
tty_write-cells (c ∷ cs) t i on prints room =
    let (t1, run1, cell1, on1, at1, color1) = putchar_print c t i on (ground arith) (omega arith) in
    let (t2, run2, cell2, at2, on2, color2) =
      tty_write-cells cs t1 i on1 (ground arith) (omega arith) in
    let cell =
      rw (at1, color1) at cell2
      ∙ later_cells (position t) i c t.color (t.buffer i) (t1.buffer i) cs cell1 in
    (t2, rw run1 run2, cell, omega arith, on2, color2 ∙ color1)
