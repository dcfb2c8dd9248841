-- ===== src/Devices/Ansi.antt =====
-- Sequences that start with an escape: `tty_interpret_ansi` of kernel/src/devices/tty.c. A character is
-- its byte. There is no result where the code writes behind the end of `buf` or `args`, which have 32
-- places each.
pub mod Params
pub mod Args
use ogos.Prelude.{
  ℕ, zero, suc, ◌+◌, ◌-◌, ◌%◌, ◌^◌, Bool, true, false, ◌||◌, Option, none, some, ltb, leb, ◌==◌,
  if◌then◌else◌,
}
use ogos.Prelude.Int.{ℤ, pos, negsuc}
use ogos.Prelude.Words.{add32, sub32}
use ogos.Libc.Ctype.{isdigit, isalpha}
use ogos.Libc.Stdlib.{char, atoi, ◌>>=◌}
use ogos.Devices.Tty.{
  State, normal, bracket, params, Ansi, Tty, vga_width, write, fill_row, tty_make_entry,
  tty_move_cursor, tty_set_fg_color, tty_set_bg_color, tty_init,
}

-- an `int` as a `uint32_t`
abbrev pub to_u32 : ℤ → ℕ
to_u32 (pos n) = n % 2 ^ 32
to_u32 (negsuc n) = 2 ^ 32 - 1 - n % 2 ^ 32

abbrev pub set_ansi : Ansi → Tty → Tty
set_ansi a t = record t { ansi = a }

-- `buf[current_index] = '\0'; args[current_arg++] = atoi(buf);` The string ends within 32 characters,
-- so that 33 rounds are enough for `atoi`.
unfoldable pub store_param : Ansi → Option Ansi
store_param a = if leb 32 a.current_index || leb 32 a.current_arg then none else do
  let buf = write a.buf a.current_index 0
  n ← atoi 33 0 buf
  some (record a {
    buf = buf;
    args = write a.args a.current_arg (to_u32 n);
    current_arg = a.current_arg + 1;
  })

-- A case of the switch on one parameter of `m`.
pub graphics : ℕ → Tty → Tty
graphics arg t =
    let a = t.ansi in
    if arg == 0 || arg == 5
    then tty_move_cursor t
    else if arg == 1
    then set_ansi (record a { saved_color = t.color }) t
    else if arg == 2
    then record t { color = a.saved_color }
    else if arg == 3
    then set_ansi (record a { saved_menu_color = t.menu_color; saved_color = t.color }) t
    else if arg == 4
    then record t { menu_color = a.saved_menu_color; color = a.saved_color }
    else if arg == 30
    then tty_set_fg_color 0 t
    else if arg == 31
    then tty_set_fg_color 4 t
    else if arg == 32
    then tty_set_fg_color 2 t
    else if arg == 33
    then tty_set_fg_color 6 t
    else if arg == 34
    then tty_set_fg_color 1 t
    else if arg == 35
    then tty_set_fg_color 5 t
    else if arg == 36
    then tty_set_fg_color 3 t
    else if arg == 37
    then tty_set_fg_color 15 t
    else if arg == 40
    then tty_set_bg_color 0 t
    else if arg == 41
    then tty_set_bg_color 4 t
    else if arg == 42
    then tty_set_bg_color 2 t
    else if arg == 43
    then tty_set_bg_color 6 t
    else if arg == 44
    then tty_set_bg_color 1 t
    else if arg == 45
    then tty_set_bg_color 5 t
    else if arg == 46
    then tty_set_bg_color 3 t
    else if arg == 47
    then tty_set_bg_color 7 t
    else t

-- The loop over the parameters of `m`, from i on, with n to go.
pub all_graphics : ℕ → ℕ → Tty → Tty
all_graphics zero i t = t
all_graphics (suc n) i t = all_graphics n (i + 1) (graphics (t.ansi.args i) t)

-- The case 'K', which clears a row from the cursor on.
pub erase : Tty → Tty
erase t =
    let entry = tty_make_entry 32 (if t.ansi.args 0 == 0 then t.color else t.menu_color) in
    record t { buffer = fill_row (vga_width - t.column) t.column t.row entry t.buffer }

-- The switch on the last character.
unfoldable pub command : ℕ → Tty → Tty
command c t =
    let a = t.ansi in
    if c == b's'
    then set_ansi (record a { saved_row = t.row; saved_col = t.column }) t
    else if c == b'u'
    then record t { row = a.saved_row; column = a.saved_col }
    else if c == b'K'
    then erase t
    else if c == b'H' || c == b'f'
    then record t { row = a.args 0; column = a.args 1 }
    else if c == b'A'
    then record t { row = sub32 t.row (a.args 0) }
    else if c == b'B'
    then record t { row = add32 t.row (a.args 0) }
    else if c == b'C'
    then record t { column = add32 t.column (a.args 0) }
    else if c == b'D'
    then record t { column = sub32 t.column (a.args 0) }
    else if c == b'J'
    then (if a.args 0 == 2 then tty_init t else t)
    else if c == b'm'
    then all_graphics a.current_arg 0 t
    else t

abbrev pub reset : Ansi → Ansi
reset a = record a { current_arg = 0; current_index = 0; state = normal }

-- A digit of a parameter.
unfoldable pub add_digit : ℕ → Ansi → Ansi
add_digit c a =
    if leb 32 a.current_index
    then reset a
    else record a { buf = write a.buf a.current_index c; current_index = a.current_index + 1 }

-- A character in the state `params`.
unfoldable pub in_params : ℕ → Tty → Option Tty
in_params c t =
    if c == b';'
    then (do a ← store_param t.ansi; some (set_ansi (record a { current_index = 0 }) t))
    else if isdigit (char c)
    then some (set_ansi (add_digit c t.ansi) t)
    else if isalpha (char c)
    then (do
      a ← store_param t.ansi
      let t1 = command c (set_ansi a t)
      some (set_ansi (reset t1.ansi) t1))
    else some t

abbrev set_state : State → Tty → Tty
set_state s t = set_ansi (record t.ansi { state = s }) t

abbrev seen : Option Tty → Option (Bool × Tty)
seen none = none
seen (some t) = some (true, t)

-- The result is true where the source returns 1.
unfoldable pub interpret : State → ℕ → Tty → Option (Bool × Tty)
interpret normal c t = if c == 0x1B then some (true, set_state bracket t) else some (false, t)
interpret bracket c t =
    if c == b'[' then some (true, set_state params t) else some (false, set_state normal t)
interpret params c t = seen (in_params c t)

unfoldable pub tty_interpret_ansi : ℕ → Tty → Option (Bool × Tty)
unfolding interpret
tty_interpret_ansi c t = interpret t.ansi.state c t
