-- ===== src/Libc/Tests.antt =====
-- Examples of the theorems on the C library.
use ogos.Prelude.{ℕ, ◌≡◌, ◌↔◌, refl, some, List, [], ◌∷◌, arith, ◌==◌, if◌then◌else◌}
use ogos.Prelude.Int.{pos, negsuc}
use ogos.Libc.Memory.{Memory, memmove, strcmp}
use ogos.Libc.Memory.Blocks.{memmove-moved}
use ogos.Libc.Memory.Strings.{strcmp-lex}
use ogos.Libc.Stdlib.{codes}
use ogos.Libc.Stdio.{int, printf, convert, convert_int, gets, number}
use ogos.Libc.Stdio.Numbers.{number_total}
use ogos.Libc.Stdio.Render.{render}
use ogos.Libc.Stdio.Printf.{printf-render}
use ogos.Libc.Stdio.Gets.{Agrees, typed, gets-Agrees}

-- each address holds its own number
abbrev numbers : Memory
numbers a = a

abbrev two_strings : Memory
two_strings a = if a == 10 then 65 else if a == 20 then 65 else if a == 21 then 66 else 0

abbrev just_a : List ℕ
just_a = 65 ∷ []

abbrev a_and_b : List ℕ
a_and_b = 65 ∷ 66 ∷ []

memmove-moved_example : memmove 12 10 5 numbers 14 ≡ 12
memmove-moved_example = memmove-moved 12 10 5 numbers 14

strcmp-lex_example :
    (strcmp 5 10 20 two_strings ≡ some (negsuc 0)) × ((negsuc 0 ≡ pos 0) ↔ (just_a ≡ a_and_b))
strcmp-lex_example =
    strcmp-lex 5 10 20 two_strings just_a a_and_b (refl, omega arith, refl)
      (refl, omega arith, (refl, omega arith, refl)) (omega arith)

-- the keys a, b, backspace, c and enter
abbrev keys : List ℕ
keys = 97 ∷ 98 ∷ 8 ∷ 99 ∷ 10 ∷ []

gets-Agrees_example : Agrees 100 numbers (gets 100 keys numbers) (some (99 ∷ 97 ∷ []))
unfolding typed
gets-Agrees_example = gets-Agrees 100 keys numbers

printf-render_example :
    printf (codes "a%cz%%%q%d") (int (pos 65) ∷ int (pos 1) ∷ []) ≡ some (codes "aAz%%q%d", 7)
unfolding render convert convert_int
printf-render_example = printf-render (codes "a%cz%%%q%d") (int (pos 65) ∷ int (pos 1) ∷ [])

number_total_example :
    (text : List ℕ) × (buf' : Memory) × (number (negsuc 254) 16 numbers ≡ some (text, buf'))
number_total_example =
    number_total (negsuc 254) 16 numbers (omega arith) (omega arith) (omega arith)
