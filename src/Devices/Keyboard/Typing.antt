-- ===== src/Devices/Keyboard/Typing.antt =====
-- What a sequence of scan codes does.
use ogos.Prelude.{
  ℕ, ◌+◌, ◌-◌, ◌%◌, ◌≡◌, bit_and, Bool, true, not, ◌&&◌, ◌||◌, List, [], ◌∷◌, Option, some, ltb,
  leb, ◌==◌, if◌then◌else◌,
}
use ogos.Devices.Keyboard.{Keyboard, is_shift, then_key, keyboard_interrupt_handler}

-- the keyboard after a sequence of scan codes
abbrev pub handle_all : List ℕ → Keyboard → Option Keyboard
handle_all [] k = some k
handle_all (c ∷ cs) k = then_key (keyboard_interrupt_handler c k) (λ k'. handle_all cs k')

-- a key that the tables have goes down, or any key goes up
abbrev pub known : ℕ → Bool
known c = ltb c 89 || (leb 128 c && ltb c 256)

abbrev pub all_known : List ℕ → Bool
all_known [] = true
all_known (c ∷ cs) = known c && all_known cs

-- how many keys go down
abbrev pub presses : List ℕ → ℕ
presses [] = 0
presses (c ∷ cs) = (if ltb c 128 then 1 else 0) + presses cs

-- the state of the shift key, from the state before
abbrev pub shift_after : List ℕ → ℕ → ℕ
shift_after [] s = s
shift_after (c ∷ cs) s =
    shift_after cs (if is_shift c then 1 else if leb 128 c && is_shift (c - 128) then 0 else s)

-- what a key press leaves of the keyboard but for the buffers
abbrev pub Entered : Keyboard → ℕ → Keyboard → Type 0
Entered k shift k' = (k'.last ≡ (k.last + 1) % 32) × (k'.shift ≡ shift) × (k'.in_size ≡ k.in_size)

abbrev wrapped : Keyboard → Keyboard
wrapped k = if k.last == 32 then record k { last = 0 } else k

-- the two tests of bit 7 of a scan code
abbrev code_check : ℕ → Bool
code_check c =
    if ltb c 128
    then bit_and c 0x80 == 0
    else not (bit_and c 0x80 == 0) && (bit_and c 0x7F == c - 128)
