-- ===== src/Devices/Tests.antt =====
-- Examples of the theorems on the devices.
use ogos.Prelude.{ℕ, ◌%◌, ◌≡◌, refl, List, [], ◌∷◌, some, arith}
use ogos.Prelude.{true, none, if◌then◌else◌, ◌^◌, ltb, ◌==◌, get_or, replicate, ◌++◌}
use ogos.Libc.Ctype.{isprint, isdigit, isalpha}
use ogos.Libc.Stdlib.{char}
use ogos.Devices.Tty.{normal, Ansi, Tty, put_entry, get_entry, tty_make_entry, tty_make_color}
use ogos.Devices.Ansi.{set_ansi}
use ogos.Devices.Ansi.Params.{all_digits, number}
use ogos.Devices.Console.{tty_write}
use ogos.Devices.Console.Bounds.{IsOnScreen, tty_write-IsOnScreen}
use ogos.Devices.Console.Lines.{all_print, position, tty_write-cells}
use ogos.Devices.Console.Sequences.{
  joined, all_short, finished, tty_write-sequence, tty_write-overrun,
}
use ogos.Devices.Keyboard.{Keyboard}

-- no character typed and no key down
abbrev idle : Keyboard
idle = record { kb_buffer = λ i. 0; last = 0; shift = 0; in_size = 0; inbuffer = λ i. 0 }

-- the left shift key goes down, then the key of the letter a, then the shift key goes up
abbrev capital_a : List ℕ
capital_a = 42 ∷ 30 ∷ 170 ∷ []

-- white on black, the cursor in row 3, the column 7 left by an earlier sequence
abbrev no_sequence : Ansi
no_sequence = record {
  state = normal;
  buf = λ i. 0;
  args = λ i. if i == 1 then 7 else 0;
  current_arg = 0;
  current_index = 0;
  saved_row = 1;
  saved_col = 0;
  saved_color = 15;
  saved_menu_color = 15;
}

abbrev terminal : Tty
terminal = record {
  row = 3;
  column = 79;
  color = 15;
  menu_color = 15;
  buffer = λ i. i;
  cursor_high = 0;
  cursor_low = 0;
  ansi = no_sequence;
}

terminal-IsOnScreen : IsOnScreen terminal
terminal-IsOnScreen = record {
  below_menu = omega arith;
  above_end = omega arith;
  in_row = omega arith;
  plain = refl;
}

abbrev two_letters : List ℕ
two_letters = 65 ∷ 66 ∷ []

two_letters_print : all_print two_letters ≡ true
unfolding isprint
two_letters_print = refl

-- 5 and 12
abbrev five : List ℕ
five = b'5' ∷ []

abbrev twelve : List ℕ
twelve = b'1' ∷ b'2' ∷ []

both_short : all_short (five ∷ twelve ∷ []) ≡ true
unfolding isdigit
both_short = refl

letter_A : isalpha (char b'A') ≡ true
unfolding isalpha
letter_A = refl

abbrev long : List ℕ
long = replicate 32 b'1'

long_digits : all_digits long ≡ true
unfolding isdigit
long_digits = refl

written :
    get_entry 5 6 (put_entry 5 6 (tty_make_entry 65 (tty_make_color 15 0)) terminal)
    ≡ tty_make_entry 65 (tty_make_color 15 0)
unfolding get_entry
written = refl

tty_write-IsOnScreen_example :
    (t' : Tty) × (tty_write two_letters terminal ≡ some t') × IsOnScreen t' × (t'.buffer 5 ≡ 5)
tty_write-IsOnScreen_example =
    tty_write-IsOnScreen two_letters terminal 5 terminal-IsOnScreen refl refl

tty_write-cells_example :
    (t' : Tty) × (tty_write two_letters terminal ≡ some t')
    × (t'.buffer 320 ≡ tty_make_entry 66 15)
    × (position t' ≡ 321)
    × IsOnScreen t'
    × (t'.color ≡ 15)
tty_write-cells_example =
    tty_write-cells two_letters terminal 320 terminal-IsOnScreen two_letters_print (omega arith)

tty_write-sequence_example :
    (a : Ansi) × (tty_write (0x1B ∷ b'[' ∷ joined (five ∷ twelve ∷ []) b'A') terminal
      ≡ some (finished b'A' (set_ansi a terminal)))
    × (a.current_arg ≡ 2)
    × ((i : ℕ)
        → a.args i ≡ (
            if ltb i 2
            then number (get_or (five ∷ twelve ∷ []) i []) % 2 ^ 32
            else no_sequence.args i))
tty_write-sequence_example =
    tty_write-sequence five (twelve ∷ []) b'A' terminal refl refl refl letter_A both_short
      (omega arith) refl

five_short : all_short (five ∷ []) ≡ true
unfolding isdigit
five_short = refl

tty_write-overrun_example : tty_write (0x1B ∷ b'[' ∷ long ++ b'A' ∷ []) terminal ≡ none
tty_write-overrun_example =
    tty_write-overrun long [] b'A' terminal refl refl (rw letter_A refl) long_digits refl refl
