-- ===== src/Devices/Tty/Screen.antt =====
-- What scrolling, a new background and clearing make of the screen.
use ogos.Prelude.{
  ℕ, ◌+◌, ◌/◌, ◌%◌, ◌<◌, ◌≤◌, ◌≡◌, refl, ◌∙◌, ◌&&◌, arith, true, ltb, leb, ◌==◌, if◌then◌else◌,
}
use ogos.Prelude.Words.{sub32}
use ogos.Devices.Tty.{
  Tty, each_column, tty_make_color, tty_make_entry, recolor, get_entry, tty_scrolldown,
  tty_change_bg_color, tty_init, tty_clear, tty_menu_clear, tty_set_bg_color, tty_set_cursor,
  tty_move_cursor, place,
}
use ogos.Devices.Tty.Cells.{each_column_lem, fill_row_lem, scroll_rows_lem}
use ogos.Devices.Tty.Entries.{recolor_lem}

-- Scrolling moves each row below the menu's one up, all cells of it at once, and blanks the last row
-- in the current color; row 0 and the memory outside the screen stay, and the cursor's row goes up by one.
pub tty_scrolldown_lem :
    (t : Tty) (i : ℕ)
    → ((tty_scrolldown t).buffer i ≡ (
        if leb 1 (i / 80) && ltb (i / 80) 24
        then t.buffer (i + 80)
        else if i / 80 == 24
        then tty_make_entry 32 t.color
        else t.buffer i))
      × ((tty_scrolldown t).row ≡ sub32 t.row 1)
      × ((tty_scrolldown t).column ≡ t.column)
      × ((tty_scrolldown t).ansi ≡ t.ansi)
unfolding tty_scrolldown tty_set_cursor tty_move_cursor
tty_scrolldown_lem t i =
    (scroll_rows_lem t.color 24 1 t.buffer i (omega arith) ∙ ground arith, refl, refl, refl)

-- A new background color goes to every cell below row 0, and the cell keeps its character and its
-- other color; the cell held an ASCII character.
pub tty_change_bg_color_lem :
    (t : Tty) (x y c fg old bg : ℕ)
    → x < 80
    → 1 ≤ y
    → y < 25
    → c < 128
    → fg < 16
    → old < 16
    → get_entry x y t ≡ tty_make_entry c (tty_make_color fg old)
    → get_entry x y (tty_change_bg_color bg t) ≡ tty_make_entry c (tty_make_color fg bg)
unfolding get_entry tty_change_bg_color tty_set_bg_color
tty_change_bg_color_lem t x y c fg old bg hx low hy hc hf ho e =
    let i = place x y in
    let reached : (leb 0 (i % 80) && ltb (i % 80) 80 && leb 1 (i / 80) && ltb (i / 80) 25) ≡ true =
      ground arith in
    each_column_lem (recolor bg) 80 0 1 t.buffer i (omega arith) (omega arith)
    ∙ rw (reached, e) (recolor_lem c fg old bg hc hf ho)

-- Clearing blanks the menu row white on black, blanks the other rows in the color before with a dark
-- grey background, leaves the memory outside the screen, and puts the cursor at the start of row 1.
pub tty_clear_lem :
    (t : Tty) (i : ℕ)
    → ((tty_clear t).buffer i ≡ (
        if i / 80 == 0
        then tty_make_entry 32 (tty_make_color 15 0)
        else if ltb (i / 80) 25
        then recolor 8 (tty_make_entry 32 t.color)
        else t.buffer i))
      × ((tty_clear t).row ≡ 1)
      × ((tty_clear t).column ≡ 0)
unfolding tty_clear tty_menu_clear tty_change_bg_color tty_set_bg_color tty_init tty_set_cursor
    tty_move_cursor
tty_clear_lem t i =
    let blank = tty_make_entry 32 t.color in
    let init = each_column_lem (λ _. blank) 80 0 0 t.buffer i (omega arith) (omega arith) in
    (
      fill_row_lem 80 0 0 (tty_make_entry 32 (tty_make_color 15 0)) _ i (omega arith) (omega arith)
          ∙ ground (
            arith,
            init,
            each_column_lem (recolor 8) 80 0 1 (each_column (λ _. blank) 80 0 0 t.buffer) i,
          ),
      refl,
      refl,
    )
