-- ===== src/Devices/Console/Bounds.antt =====
-- Text stays on the screen.
use ogos.Prelude.{
  ℕ, ◌+◌, ◌^◌, ◌<◌, ◌≤◌, ◌≡◌, refl, ap, ◌∙◌, Bool, true, false, not, ◌&&◌, ◌||◌, List, [], ◌∷◌,
  some, arith, ltb, leb, ◌==◌, Bool-cases, ◌⊎◌, inl, inr,
}
use ogos.Libc.Ctype.{isprint}
use ogos.Libc.Stdlib.{char}
use ogos.Devices.Tty.{normal, Tty, tty_move_cursor, tty_set_cursor, tty_putchar_at}
use ogos.Devices.Tty.Screen.{tty_scrolldown_lem}
use ogos.Devices.Ansi.{tty_interpret_ansi, interpret}
use ogos.Devices.Console.{type_char, control, wrap, scroll, tty_putchar, tty_write}

-- the cursor stands below the menu row, at most behind the last column, and no sequence is open
pub record IsOnScreen (t : Tty) : Type 0 where
  pub below_menu : 1 ≤ t.row
  pub above_end : t.row < 25
  pub in_row : t.column ≤ 80
  pub plain : t.ansi.state ≡ normal

-- no escape and no backspace
abbrev pub is_text : List ℕ → Bool
is_text [] = true
is_text (c ∷ cs) = not (c == 0x1B) && not (c == 8) && is_text cs

-- row 0, and what lies behind the screen
abbrev pub outside : ℕ → Bool
outside i = ltb i 80 || leb 2000 i

module _ (i : ℕ) (out : outside i ≡ true) where
  type_char_kept :
      (c : ℕ) (t : Tty)
      → 1 ≤ t.row
      → t.row < 25
      → t.column < 2 ^ 31
      → ((type_char c t).buffer i ≡ t.buffer i)
        × ((type_char c t).row ≡ t.row)
        × ((type_char c t).column ≡ t.column + 1)
        × ((type_char c t).ansi ≡ t.ansi)
  unfolding type_char tty_putchar_at tty_move_cursor
  type_char_kept c t low high room = ground arith

  wrap_kept :
      (t : Tty)
      → t.row ≤ 25
      → t.column ≤ 84
      → (t.row < 25) ⊎ (t.column ≡ 0)
      → ((wrap t).buffer i ≡ t.buffer i)
        × (t.row ≤ (wrap t).row)
        × ((wrap t).row ≤ 25)
        × ((wrap t).column < 80)
        × ((wrap t).ansi ≡ t.ansi)
  unfolding wrap tty_set_cursor tty_move_cursor
  wrap_kept t high room either = ground arith

  scroll_kept :
      (t : Tty)
      → 1 ≤ t.row
      → t.row ≤ 25
      → ((scroll t).buffer i ≡ t.buffer i)
        × (1 ≤ (scroll t).row)
        × ((scroll t).row < 25)
        × ((scroll t).column ≡ t.column)
        × ((scroll t).ansi ≡ t.ansi)
  unfolding scroll
  scroll_kept t low high = ground (arith, tty_scrolldown_lem t i)

  four_kept :
      (c : ℕ) (t : Tty)
      → 1 ≤ t.row
      → t.row < 25
      → t.column ≤ 80
      → let t4 = type_char c (type_char c (type_char c (type_char c t))) in
        (t4.buffer i ≡ t.buffer i)
        × (t4.row ≡ t.row)
        × (t4.column ≡ t.column + 4)
        × (t4.ansi ≡ t.ansi)
  four_kept c t low high room =
      let t1 = type_char c t in
      let t2 = type_char c t1 in
      let t3 = type_char c t2 in
      let (b1, r1, c1, a1) = type_char_kept c t low high (omega arith) in
      let (b2, r2, c2, a2) = type_char_kept c t1 (omega arith) (omega arith) (omega arith) in
      let (b3, r3, c3, a3) = type_char_kept c t2 (omega arith) (omega arith) (omega arith) in
      let (b4, r4, c4, a4) = type_char_kept c t3 (omega arith) (omega arith) (omega arith) in
      (b4 ∙ b3 ∙ b2 ∙ b1, omega arith, omega arith, a4 ∙ a3 ∙ a2 ∙ a1)

  control_kept :
      (c : ℕ) (t : Tty)
      → 1 ≤ t.row
      → t.row < 25
      → t.column ≤ 80
      → (c == 8) ≡ false
      → ((control c t).buffer i ≡ t.buffer i)
        × (t.row ≤ (control c t).row)
        × ((control c t).row ≤ 25)
        × ((control c t).column ≤ 84)
        × ((control c t).ansi ≡ t.ansi)
        × (((control c t).row < 25) ⊎ ((control c t).column ≡ 0))
  unfolding control tty_set_cursor tty_move_cursor
  control_kept c t low high room plain = elim (Bool-cases (c == 10 || c == 13)) [
    | inl line ↦ rw line (refl, omega arith, omega arith, omega arith, refl, inr refl)
    | inr other ↦ elim (Bool-cases (c == 9)) [
      | inl tab ↦
          let (b, r, k, a) = four_kept 32 t low high room in
          rw (other, tab) (b, omega arith, omega arith, omega arith, a, inl (omega arith))
      | inr more ↦
          rw (other, more, plain) (refl, omega arith, omega arith, omega arith, refl, inl high)
    ]
  ]

  -- the state in which a character is interpreted
  placed_kept :
      (c : ℕ) (t : Tty)
      → IsOnScreen t
      → (c == 8) ≡ false
      → let t' = scroll (wrap (control c t)) in
        (t'.buffer i ≡ t.buffer i)
        × (1 ≤ t'.row)
        × (t'.row < 25)
        × (t'.column < 80)
        × (t'.ansi ≡ t.ansi)
  placed_kept c t on plain =
      let t1 = control c t in
      let (b1, r1, s1, c1, a1, e1) = control_kept c t on.below_menu on.above_end on.in_row plain in
      let (b2, r2, s2, c2, a2) = wrap_kept t1 s1 c1 e1 in
      let (b3, r3, s3, c3, a3) = scroll_kept (wrap t1) (omega (arith, on.below_menu)) s2 in
      (b3 ∙ b2 ∙ b1, r3, s3, omega arith, a3 ∙ a2 ∙ a1)

  tty_putchar_kept :
      (c : ℕ) (t : Tty)
      → IsOnScreen t
      → (c == 8) ≡ false
      → (c == 0x1B) ≡ false
      → (t' : Tty) × (tty_putchar c t ≡ some t') × IsOnScreen t' × (t'.buffer i ≡ t.buffer i)
  unfolding tty_putchar tty_interpret_ansi interpret
  tty_putchar_kept c t on plain no_escape =
      let t1 = scroll (wrap (control c t)) in
      let (b1, r1, s1, c1, a1) = placed_kept c t on plain in
      let state : t1.ansi.state ≡ normal = ap (λ a. a.state) a1 ∙ on.plain in
      elim (Bool-cases (not (isprint (char c)))) [
        | inl skipped ↦ (
          t1,
          rw (state, no_escape, skipped) refl,
          record { below_menu = r1; above_end = s1; in_row = omega arith; plain = state },
          b1,
        )
        | inr printed ↦
            let (b2, r2, c2, a2) = type_char_kept c t1 r1 s1 (omega arith) in
            (
              type_char c t1,
              rw (state, no_escape, printed) refl,
              record {
                below_menu = omega arith;
                above_end = omega arith;
                in_row = omega arith;
                plain = ap (λ a. a.state) a2 ∙ state;
              },
              b2 ∙ b1,
            )
      ]

-- From a cursor that stands below the menu row and on the screen, with no sequence open, text without
-- escapes and backspaces is written to its end: the cursor is on the screen again and no sequence is
-- open, and neither the menu row nor the memory behind the screen has changed.
pub tty_write-IsOnScreen :
    (cs : List ℕ) (t : Tty) (i : ℕ)
    → IsOnScreen t
    → is_text cs ≡ true
    → outside i ≡ true
    → (t' : Tty) × (tty_write cs t ≡ some t') × IsOnScreen t' × (t'.buffer i ≡ t.buffer i)
unfolding tty_write
tty_write-IsOnScreen [] t i on text out = (t, refl, on, refl)
tty_write-IsOnScreen (c ∷ cs) t i on text out =
    let (t1, run1, on1, b1) = tty_putchar_kept i out c t on (ground arith) (ground arith) in
    let (t2, run2, on2, b2) = tty_write-IsOnScreen cs t1 i on1 (ground arith) out in
    (t2, rw run1 run2, on2, b2 ∙ b1)
