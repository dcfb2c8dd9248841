-- ===== src/Devices/Keyboard.antt =====
-- The keyboard: kernel/src/devices/keyboard.c, kernel/include/kernel/keyboard.h. The scan code that a
-- port gives is an argument, and `stdin` is `inbuffer`, as `init_stdin` sets it.
pub mod Typing
use ogos.Prelude.{
  ℕ, zero, suc, ◌+◌, ◌-◌, ◌^◌, bit_and, Bool, true, false, not, ◌||◌, List, [], ◌∷◌, Option, none,
  some, get_elem?, ltb, ◌==◌, if◌then◌else◌,
}

-- The character codes of the two tables.
pub us_ascii_non_shift : List ℕ
us_ascii_non_shift =
    0 ∷ 27 ∷ 49 ∷ 50 ∷ 51 ∷ 52 ∷ 53 ∷ 54 ∷ 55 ∷ 56 ∷ 57 ∷ 48 ∷ 45 ∷ 61 ∷ 8 ∷ 9 ∷ 113 ∷ 119 ∷ 101
    ∷ 114 ∷ 116 ∷ 121 ∷ 117 ∷ 105 ∷ 111 ∷ 112 ∷ 91 ∷ 93 ∷ 10 ∷ 0 ∷ 97 ∷ 115 ∷ 100 ∷ 102 ∷ 103 ∷ 104
    ∷ 106 ∷ 107 ∷ 108 ∷ 59 ∷ 39 ∷ 96 ∷ 0 ∷ 92 ∷ 122 ∷ 120 ∷ 99 ∷ 118 ∷ 98 ∷ 110 ∷ 109 ∷ 44 ∷ 46 ∷ 47
    ∷ 0 ∷ 0 ∷ 0 ∷ 32 ∷ 0 ∷ 128 ∷ 129 ∷ 130 ∷ 131 ∷ 132 ∷ 133 ∷ 134 ∷ 135 ∷ 136 ∷ 137 ∷ 0 ∷ 0 ∷ 146
    ∷ 151 ∷ 148 ∷ 45 ∷ 150 ∷ 53 ∷ 153 ∷ 43 ∷ 147 ∷ 152 ∷ 149 ∷ 144 ∷ 145 ∷ 0 ∷ 0 ∷ 0 ∷ 138 ∷ 139
    ∷ []

pub us_ascii_shift : List ℕ
us_ascii_shift =
    0 ∷ 27 ∷ 33 ∷ 64 ∷ 35 ∷ 36 ∷ 37 ∷ 94 ∷ 38 ∷ 42 ∷ 40 ∷ 41 ∷ 95 ∷ 43 ∷ 8 ∷ 9 ∷ 81 ∷ 87 ∷ 69 ∷ 82
    ∷ 84 ∷ 89 ∷ 85 ∷ 73 ∷ 79 ∷ 80 ∷ 123 ∷ 125 ∷ 10 ∷ 0 ∷ 65 ∷ 83 ∷ 68 ∷ 70 ∷ 71 ∷ 72 ∷ 74 ∷ 75 ∷ 76
    ∷ 58 ∷ 34 ∷ 126 ∷ 0 ∷ 124 ∷ 90 ∷ 88 ∷ 67 ∷ 86 ∷ 66 ∷ 78 ∷ 77 ∷ 60 ∷ 62 ∷ 63 ∷ 0 ∷ 0 ∷ 0 ∷ 32 ∷ 0
    ∷ 128 ∷ 129 ∷ 130 ∷ 131 ∷ 132 ∷ 133 ∷ 134 ∷ 135 ∷ 136 ∷ 137 ∷ 0 ∷ 0 ∷ 146 ∷ 151 ∷ 148 ∷ 45 ∷ 150
    ∷ 53 ∷ 153 ∷ 43 ∷ 147 ∷ 152 ∷ 149 ∷ 144 ∷ 145 ∷ 0 ∷ 0 ∷ 0 ∷ 138 ∷ 139 ∷ []

pub record Keyboard : Type 0 where
  pub kb_buffer : ℕ → ℕ
  pub last : ℕ
  pub shift : ℕ
  pub in_size : ℕ
  pub inbuffer : ℕ → ℕ

pub init_keyboard : Keyboard → Keyboard
init_keyboard k = record k { in_size = 0; last = 0 }

pub init_stdin : Keyboard → Keyboard
init_stdin k = record k { inbuffer = λ i. if ltb i 4096 then 0 else k.inbuffer i }

-- `inbuffer` has STDIO_SIZE, 4096, bytes: there is no result outside.
pub read_kb_buff : (ℕ → ℕ) → ℕ → Keyboard → Option Keyboard
read_kb_buff buf size k =
    if ltb k.in_size 4096
    then some (record k { inbuffer = λ i. if k.in_size == i then buf (size - 1) else k.inbuffer i })
    else none

-- KRLEFT_SHIFT and KRRIGHT_SHIFT
abbrev pub is_shift : ℕ → Bool
is_shift scancode = (scancode == 0x2A) || (scancode == 0x36)

-- A character into the buffer, which has 32 bytes.
pub put_key : ℕ → Keyboard → Option Keyboard
put_key c k =
    if ltb k.last 32
    then some
        (record k { kb_buffer = λ i. if k.last == i then c else k.kb_buffer i; last = k.last + 1 })
    else none

abbrev pub then_key : Option Keyboard → (Keyboard → Option Keyboard) → Option Keyboard
then_key none f = none
then_key (some k) f = f k

-- The character of a table, if it has one.
pub key_of : Option ℕ → Keyboard → Option Keyboard
key_of none k = none
key_of (some c) k = put_key c k

-- The rest of a key press: the character that the table has goes into the buffer, and to the reader
-- unless the key is a special one.
pub enter : Bool → Option ℕ → Keyboard → Option Keyboard
enter special found k = then_key (key_of found k) (λ k1.
    then_key (if special then some k1 else read_kb_buff k1.kb_buffer k1.last k1)
      (λ k2. some (if k2.last == 32 then record k2 { last = 0 } else k2)))

pub press : ℕ → Keyboard → Option Keyboard
press scancode k =
    let shift = if is_shift scancode then 1 else k.shift in
    let table = if shift == 0 then us_ascii_non_shift else us_ascii_shift in
    enter (is_shift scancode) (get_elem? table scancode) (record k { shift = shift })

-- There is no result where a scan code lies outside the tables or an index outside a buffer.
pub keyboard_interrupt_handler : ℕ → Keyboard → Option Keyboard
keyboard_interrupt_handler scancode k =
    if bit_and scancode 0x80 == 0
    then press scancode k
    else some (if is_shift (bit_and scancode 0x7F) then record k { shift = 0 } else k)
