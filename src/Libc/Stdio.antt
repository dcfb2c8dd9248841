-- ===== src/Libc/Stdio.antt =====
-- Printing and reading lines: kernel/src/libc/stdio.c. What is printed is a list of characters, which
-- `putchar` hands to the terminal one by one (Devices/Console); what `getch` reads is a list of keys.
pub mod Render
pub mod Printf
pub mod Gets
pub mod Numbers
use ogos.Prelude.{
  ℕ, zero, suc, ◌+◌, ◌-◌, ◌%◌, ◌^◌, Option, none, some, Bool, true, false, List, [], ◌∷◌, ◌++◌, ltb,
  ◌==◌, ◌||◌, if◌then◌else◌,
}
use ogos.Prelude.Int.{ℤ, pos, negsuc}
use ogos.Libc.Ctype.{toupper}
use ogos.Libc.Memory.{Memory, write, strlen, text_at}
use ogos.Libc.Stdlib.{char, itoa, codes, ◌>>=◌}

-- An argument behind the format: an `int`, or a string without its zero byte.
pub data Arg : Type 0 where
  int : ℤ → Arg
  string : List ℕ → Arg

-- an `int` as a character
abbrev pub to_byte : ℤ → ℕ
to_byte (pos v) = v % 2 ^ 8
to_byte (negsuc v) = 255 - v % 2 ^ 8

-- The text that `itoa` leaves in `conversion_buf`, of 128 bytes from address 0 on. An `int` has at most 32
-- digits and a sign, which 40 steps of each loop are enough for.
pub number : ℤ → ℕ → Memory → Option (List ℕ × Memory)
number v base buf = do
  buf' ← itoa 40 v 0 base buf
  n ← strlen 40 0 buf'
  some (text_at n 0 buf', buf')

-- the loop of `%X` over the n characters of the text
abbrev pub upper : ℕ → Memory → Memory
upper n buf a = if ltb a n then to_byte (toupper (char (buf a))) else buf a

pub upper_number : ℤ → Memory → Option (List ℕ × Memory)
upper_number v buf = do
  buf' ← itoa 40 v 0 16 buf
  n ← strlen 40 0 buf'
  some (text_at n 0 (upper n buf'), upper n buf')

-- What a specifier comes to: it is not one, it has no argument of its kind, which C leaves undefined, or it
-- prints a text and takes an argument.
pub data Converted : Type 0 where
  unknown : Converted
  undefined : Converted
  printed : List ℕ → List Arg → Memory → Converted

abbrev pub converted : List Arg → Option (List ℕ × Memory) → Converted
converted args none = undefined
converted args (some (text, buf)) = printed text args buf

-- the specifiers that take an `int`
unfoldable pub convert_int : ℕ → ℤ → List Arg → Memory → Converted
convert_int spec v args buf =
    if spec == b'c'
    then printed (to_byte v ∷ []) args buf
    else if spec == b'd'
    then converted args (number v 10 buf)
    else if spec == b'x'
    then converted args (number v 16 buf)
    else if spec == b'X'
    then converted args (upper_number v buf)
    else if spec == b'b'
    then converted args (number v 2 buf)
    else if spec == b's'
    then undefined
    else unknown

abbrev pub is_specifier : ℕ → Bool
is_specifier spec =
    spec == b'c' || spec == b's' || spec == b'd' || spec == b'x' || spec == b'X' || spec == b'b'

unfoldable pub convert : ℕ → List Arg → Memory → Converted
convert spec [] buf = if is_specifier spec then undefined else unknown
convert spec (int v ∷ args) buf = convert_int spec v args buf
convert spec (string text ∷ args) buf =
    if spec == b's' then printed text args buf else if is_specifier spec then undefined else unknown

-- The characters up to the next `%`, and the rest.
pub span : List ℕ → List ℕ × List ℕ
span [] = ([], [])
span (c ∷ cs) = let (run, rest) = span cs in if c == b'%' then ([], c ∷ cs) else (c ∷ run, rest)

-- a text, and the count `written`
abbrev pub Output : Type 0
Output = Option (List ℕ × ℕ)

abbrev pub count : List ℕ → ℕ
count [] = 0
count (c ∷ cs) = suc (count cs)

-- `print` of a text that is counted, and of one that is not
abbrev pub print_counted : List ℕ → Output → Output
print_counted text none = none
print_counted text (some (later, written)) = some (text ++ later, count text + written)

abbrev pub print : List ℕ → Output → Output
print text none = none
print text (some (later, written)) = some (text ++ later, written)

-- The lines behind `print_c`: a character is printed whatever it is, with those up to the next `%`.
pub print_c : ℕ → List ℕ → (List ℕ → Output) → Output
print_c c cs continue = let (run, rest) = span cs in print_counted (c ∷ run) (continue rest)

-- The loop of `printf`. `none` is an undefined conversion, or the end of the fuel.
pub printf_loop : ℕ → Bool → List ℕ → List Arg → Memory → Output
printf_loop zero rejected format args buf = none
printf_loop (suc k) rejected [] args buf = some ([], 0)
printf_loop (suc k) rejected (c ∷ []) args buf =
    print_c c [] (λ rest. printf_loop k (if c == b'%' then true else rejected) rest args buf)
printf_loop (suc k) rejected (c ∷ d ∷ ds) args buf = elim (c == b'%') [
  | false ↦ print_c c (d ∷ ds) (λ rest. printf_loop k rejected rest args buf)
  | true ↦ elim (d == b'%') [
    | true ↦ print_c d ds (λ rest. printf_loop k rejected rest args buf)
    | false ↦ elim rejected [
      | true ↦ print_c c (d ∷ ds) (λ rest. printf_loop k true rest args buf)
      | false ↦ elim (convert d args buf) [
        | unknown ↦ print_c c (d ∷ ds) (λ rest. printf_loop k true rest args buf)
        | undefined ↦ none
        | printed text args' buf' ↦ print text (printf_loop k false ds args' buf')
      ]
    ]
  ]
]

-- The loop runs at most once for each character, and once more.
pub printf : List ℕ → List Arg → Output
printf format args = printf_loop (suc (count format)) false format args (λ a. 0)

pub puts : List ℕ → Output
puts text = printf (codes "%s\n") (string text ∷ [])

abbrev pub echo : ℕ → Option (Memory × List ℕ) → Option (Memory × List ℕ)
echo c none = none
echo c (some (m, later)) = some (m, c ∷ later)

-- `gets` from index i on, with the keys to come: the line in memory, and the characters that it echoes.
-- `none` is a wait for a key.
pub gets_loop : ℕ → ℕ → List ℕ → Memory → Option (Memory × List ℕ)
gets_loop str i [] m = none
gets_loop str i (c ∷ cs) m = elim (c == 10) [
  | true ↦ some (write m (str + i) 0, 10 ∷ [])
  | false ↦ elim (c == 8) [
    | false ↦ echo c (gets_loop str (i + 1) cs (write m (str + i) c))
    | true ↦ elim i [
      | zero ↦ gets_loop str 0 cs m
      | suc j ↦ echo c (gets_loop str j cs (write m (str + j) 0))
    ]
  ]
]

pub gets : ℕ → List ℕ → Memory → Option (Memory × List ℕ)
gets str keys m = gets_loop str 0 keys m
