-- ===== src/Devices/Tty.antt =====
-- The screen of the terminal: kernel/src/devices/tty.c, kernel/include/kernel/tty.h. Rows and columns are
-- words of 32 bits, which the source reads as signed ones where it compares them. The buffer is read
-- and written by index, also outside the screen; an entry has two bytes, so an index counts modulo 2^31.
pub mod Entries
pub mod Cells
pub mod Screen
use ogos.Prelude.{
  ℕ, zero, suc, ◌+◌, ◌-◌, ◌*◌, ◌/◌, ◌%◌, ◌^◌, bit_and, bit_or, Bool, true, false, not, ◌&&◌, ◌||◌,
  ltb, leb, ◌==◌, if◌then◌else◌,
}
use ogos.Prelude.Words.{u8, u16, add32, sub32}
use ogos.Prelude.Bits.{complement}

-- The last state of a sequence of characters that starts with an escape.
pub data State : Type 0 where
  normal bracket params : State

-- The static variables of `tty_interpret_ansi`.
pub record Ansi : Type 0 where
  pub state : State
  pub buf : ℕ → ℕ
  pub args : ℕ → ℕ
  pub current_arg : ℕ
  pub current_index : ℕ
  pub saved_row : ℕ
  pub saved_col : ℕ
  pub saved_color : ℕ
  pub saved_menu_color : ℕ

-- The static variables of tty.c, with the two bytes that the board last got for its cursor.
pub record Tty : Type 0 where
  pub row : ℕ
  pub column : ℕ
  pub color : ℕ
  pub menu_color : ℕ
  pub buffer : ℕ → ℕ
  pub cursor_high : ℕ
  pub cursor_low : ℕ
  pub ansi : Ansi

abbrev pub vga_width : ℕ
vga_width = 80

abbrev pub vga_height : ℕ
vga_height = 25

-- `vga_color`, by number
abbrev pub black : ℕ
black = 0

abbrev pub dark_grey : ℕ
dark_grey = 8

abbrev pub white : ℕ
white = 15

-- `w < 0` and `w >= n` for a word read as a signed one
abbrev pub negative : ℕ → Bool
negative w = leb (2 ^ 31) w

abbrev pub at_least : ℕ → ℕ → Bool
at_least n w = not (negative w) && leb n w

-- ENTRY(x, y)
abbrev pub place : ℕ → ℕ → ℕ
place x y = (y * 80 + x) % 2 ^ 31

abbrev pub write : (ℕ → ℕ) → ℕ → ℕ → ℕ → ℕ
write buffer i v j = if i == j then v else buffer j

abbrev pub put_entry : ℕ → ℕ → ℕ → Tty → Tty
put_entry x y entry t = record t { buffer = write t.buffer (place x y) entry }

pub tty_make_color : ℕ → ℕ → ℕ
tty_make_color fg bg = u8 (bit_or fg (bg * 2 ^ 4))

-- A `char` is signed: it is extended to 16 bits by its sign.
pub tty_make_entry : ℕ → ℕ → ℕ
tty_make_entry c color =
    let c16 = if ltb c 128 then c else c + 0xFF00 in u16 (bit_or c16 (color * 2 ^ 8))

pub tty_get_fg_color : Tty → ℕ
tty_get_fg_color t = bit_and t.color 0x000F

pub tty_get_bg_color : Tty → ℕ
tty_get_bg_color t = t.color / 2 ^ 4

pub tty_set_bg_color : ℕ → Tty → Tty
tty_set_bg_color color t = record t { color = tty_make_color (tty_get_fg_color t) color }

pub tty_set_fg_color : ℕ → Tty → Tty
tty_set_fg_color color t = record t { color = tty_make_color color (tty_get_bg_color t) }

unfoldable pub get_entry : ℕ → ℕ → Tty → ℕ
get_entry x y t = t.buffer (place x y)

-- `entry_struct_t`
pub record EntryInfo : Type 0 where
  pub entry : ℕ
  pub c : ℕ
  pub color : ℕ
  pub color_fg : ℕ
  pub color_bg : ℕ

pub get_entry_info : ℕ → EntryInfo
get_entry_info entry16 = record {
  entry = entry16;
  c = bit_and entry16 0xFF;
  color = u8 (entry16 / 2 ^ 8);
  color_fg = bit_and (entry16 / 2 ^ 8) 0x000F;
  color_bg = u8 (entry16 / 2 ^ 8 / 2 ^ 4);
}

unfoldable pub tty_move_cursor : Tty → Tty
tty_move_cursor t =
    let index = add32 (t.row * 80) t.column in
    record t { cursor_high = u8 (index / 2 ^ 8); cursor_low = u8 index }

unfoldable pub tty_set_cursor : ℕ → ℕ → Tty → Tty
tty_set_cursor row col t = tty_move_cursor (record t { row = row; column = col })

-- `for (; y < VGA_HEIGHT; y++) ENTRY(x, y) = f(ENTRY(x, y));` with n rows to go
pub each_row : (ℕ → ℕ) → ℕ → ℕ → ℕ → (ℕ → ℕ) → ℕ → ℕ
each_row f zero x y buffer = buffer
each_row f (suc n) x y buffer =
    each_row f n x (y + 1) (write buffer (place x y) (f (buffer (place x y))))

-- the same for each column from x on, with m columns to go, each from row y on
pub each_column : (ℕ → ℕ) → ℕ → ℕ → ℕ → (ℕ → ℕ) → ℕ → ℕ
each_column f zero x y buffer = buffer
each_column f (suc m) x y buffer =
    each_column f m (x + 1) y (each_row f (vga_height - y) x y buffer)

pub tty_init : Tty → Tty
tty_init t =
    let entry = tty_make_entry 32 t.color in
    let t1 = tty_set_cursor 0 0 (record t { color = tty_make_color white black }) in
    tty_set_cursor 1 0 (record t1 { buffer = each_column (λ _. entry) vga_width 0 0 t1.buffer })

-- `for (; x < VGA_WIDTH; x++) ENTRY(x, y) = entry;` with n columns to go
pub fill_row : ℕ → ℕ → ℕ → ℕ → (ℕ → ℕ) → ℕ → ℕ
fill_row zero x y entry buffer = buffer
fill_row (suc n) x y entry buffer = fill_row n (x + 1) y entry (write buffer (place x y) entry)

pub tty_menu_clear : Tty → Tty
tty_menu_clear t =
    let menu_color = tty_make_color white black in
    let menu_entry = tty_make_entry 32 menu_color in
    record t { menu_color = menu_color; buffer = fill_row vga_width 0 0 menu_entry t.buffer }

pub tty_setcolor : ℕ → ℕ → Tty → Tty
tty_setcolor fg bg t = record t { color = tty_make_color fg bg }

pub recolor : ℕ → ℕ → ℕ
recolor bg entry =
    let c = bit_and entry 0xFF in
    let fg = bit_and entry 0x0F00 / 2 ^ 8 in tty_make_entry c (tty_make_color fg bg)

pub tty_change_bg_color : ℕ → Tty → Tty
tty_change_bg_color bg t =
    tty_set_bg_color bg (record t { buffer = each_column (recolor bg) vga_width 0 1 t.buffer })

pub tty_clear : Tty → Tty
tty_clear t = tty_menu_clear (tty_change_bg_color dark_grey (tty_init t))

pub tty_set_blink : Bool → Tty → Tty
tty_set_blink blink t = record t {
  color = if blink then bit_or t.color (2 ^ 7) else bit_and t.color (complement 8 (2 ^ 7));
}

unfoldable pub tty_putchar_at : ℕ → ℕ → ℕ → Tty → Tty
tty_putchar_at c x y t =
    if leb vga_height y || leb vga_width x then t else put_entry x y (tty_make_entry c t.color) t

-- One row of `tty_scrolldown`, from column x on, with n columns to go.
pub scroll_row : ℕ → ℕ → ℕ → ℕ → (ℕ → ℕ) → ℕ → ℕ
scroll_row color zero x y buffer = buffer
scroll_row color (suc n) x y buffer =
    let entry =
      if ltb y (vga_height - 1) then buffer (place x (y + 1)) else tty_make_entry 32 color in
    scroll_row color n (x + 1) y (write buffer (place x y) entry)

-- The rows from y on, with m rows to go.
pub scroll_rows : ℕ → ℕ → ℕ → (ℕ → ℕ) → ℕ → ℕ
scroll_rows color zero y buffer = buffer
scroll_rows color (suc m) y buffer =
    scroll_rows color m (y + 1) (scroll_row color vga_width 0 y buffer)

pub tty_scrolldown : Tty → Tty
tty_scrolldown t =
    let t1 = record t { buffer = scroll_rows t.color (vga_height - 1) 1 t.buffer } in
    tty_set_cursor (sub32 t.row 1) t.column t1

-- To the left of the first column the cursor goes to column 78 of the row above.
unfoldable pub step_left : Tty → Tty
step_left t =
    let t1 = tty_set_cursor t.row (sub32 t.column 1) t in
    if negative t1.column then tty_set_cursor (sub32 t1.row 1) 78 t1 else t1

pub tty_arrow : ℕ → Tty → Tty
tty_arrow sc t =
    if sc == 0x4B
    then step_left t
    else if sc == 0x4D
    then tty_set_cursor t.row (add32 t.column 1) t
    else if sc == 0x48
    then tty_set_cursor (sub32 t.row 1) t.column t
    else if sc == 0x50
    then tty_set_cursor (add32 t.row 1) t.column t
    else t
