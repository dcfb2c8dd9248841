-- ===== src/Devices/Console.antt =====
-- Characters on the screen: `tty_putchar`, `tty_write` and `tty_write_string` of
-- kernel/src/devices/tty.c.
pub mod Bounds
pub mod Sequences
pub mod Lines
use ogos.Prelude.{
  ℕ, zero, suc, ◌+◌, Bool, true, false, not, ◌||◌, List, [], ◌∷◌, Option, none, some, ltb, leb,
  ◌==◌, if◌then◌else◌,
}
use ogos.Prelude.Words.{add32}
use ogos.Libc.Ctype.{isprint}
use ogos.Libc.Memory.{Memory, strlen, text_at}
use ogos.Libc.Stdlib.{char, ◌>>=◌}
use ogos.Devices.Tty.{
  Tty, vga_width, vga_height, at_least, tty_move_cursor, tty_set_cursor, tty_putchar_at,
  tty_scrolldown, step_left,
}
use ogos.Devices.Ansi.{tty_interpret_ansi}

-- `tty_putchar_at(c, tty_column++, tty_row); tty_move_cursor();`
pub type_char : ℕ → Tty → Tty
type_char c t =
    let t1 = tty_putchar_at c t.column t.row t in
    tty_move_cursor (record t1 { column = add32 t1.column 1 })

-- What a new line, a tab and a backspace do first.
pub control : ℕ → Tty → Tty
control c t =
    if c == 10 || c == 13
    then tty_set_cursor (add32 t.row 1) 0 t
    else if c == 9
    then type_char 32 (type_char 32 (type_char 32 (type_char 32 t)))
    else if c == 8
    then (let t1 = step_left t in tty_putchar_at 32 t1.column t1.row t1)
    else t

-- The next row behind the last column, and a new row at the bottom.
pub wrap : Tty → Tty
wrap t = if at_least vga_width t.column then tty_set_cursor (add32 t.row 1) 0 t else t

pub scroll : Tty → Tty
scroll t = if at_least vga_height t.row then tty_scrolldown t else t

pub tty_putchar : ℕ → Tty → Option Tty
tty_putchar c t = do
  (seen, t1) ← tty_interpret_ansi c (scroll (wrap (control c t)))
  some (if seen || not (isprint (char c)) then t1 else type_char c t1)

-- The characters of `data`, which has `size` of them.
pub tty_write : List ℕ → Tty → Option Tty
tty_write [] t = some t
tty_write (c ∷ cs) t = do t1 ← tty_putchar c t; tty_write cs t1

pub tty_write_string : ℕ → ℕ → Memory → Tty → Option Tty
unfolding text_at
tty_write_string fuel start m t = do n ← strlen fuel start m; tty_write (text_at n start m) t
