-- ===== src/Libc/Stdlib.antt =====
-- Numbers and their texts: `atoi` and `itoa` of kernel/src/libc/stdlib.c. An `int` is a ℤ; the
-- loops run on fuel, and `none` means that it ran out.
pub mod Digits
pub mod Itoa
pub mod Atoi
use Prim.Native.String
use Prim.Native.String.{String}
use Prim.Native.Char.{code}
use ogos.Prelude.{
  ℕ, zero, suc, ◌+◌, ◌-◌, ◌/◌, ◌%◌, Option, none, some, Bool, not, ◌||◌, ◌&&◌, List, [], ◌∷◌, ltb,
  leb, ◌==◌, if◌then◌else◌, get_or,
}
use ogos.Prelude.Int.{ℤ, pos, negsuc, pos_part, sub_ℕ, ◌+ℤ◌, ◌-ℤ◌, ◌*ℤ◌, ltb_ℤ}
use ogos.Libc.Ctype.{isspace, isdigit}
use ogos.Libc.Memory.{Memory, write}

-- A byte read through a `const char *`: `char` is signed.
abbrev pub char : ℕ → ℤ
char b = if ltb b 128 then pos b else negsuc (255 - b)

unfoldable pub skip_space : ℕ → ℕ → Memory → Option ℕ
skip_space zero s m = none
skip_space (suc k) s m =
    let rest = skip_space k (s + 1) m in if isspace (char (m s)) then rest else some s

unfoldable pub read_digits : ℕ → ℕ → ℤ → Memory → Option ℤ
read_digits zero s n m = none
read_digits (suc k) s n m =
    let rest = read_digits k (s + 1) (pos 10 *ℤ n -ℤ (char (m s) -ℤ pos b'0')) m in
    if isdigit (char (m s)) then rest else some n

infixl 5 ◌>>=◌
abbrev pub ◌>>=◌ : {A B : Type 0} → Option A → (A → Option B) → Option B
none >>= f = none
some a >>= f = f a

unfoldable pub atoi : ℕ → ℕ → Memory → Option ℤ
atoi fuel s m = do
  s' ← skip_space fuel s m
  let neg = m s' == b'-'
  let start = if m s' == b'-' || m s' == b'+' then s' + 1 else s'
  n ← read_digits fuel start (pos 0) m
  some (if neg then n else pos 0 -ℤ n)

abbrev pub codes : String → List ℕ
codes String.[] = []
codes (String.◌∷◌ c s) = code c ∷ codes s

digit_table : List ℕ
digit_table = codes "zyxwvutsrqponmlkjihgfedcba9876543210123456789abcdefghijklmnopqrstuvwxyz"

-- The index `35 + value % base`; `%` takes the sign of the value.
abbrev pub digit_index : ℤ → ℕ → ℕ
digit_index (pos v) base = 35 + v % base
digit_index (negsuc v) base = 35 - suc v % base

-- `value / base`, which drops the fraction.
abbrev pub quotient : ℤ → ℕ → ℤ
quotient (pos v) base = pos (v / base)
quotient (negsuc v) base = sub_ℕ 0 (suc v / base)

pub digit_char : ℤ → ℕ → ℕ
digit_char value base = get_or digit_table (digit_index value base) 0

abbrev pub is_zero : ℤ → Bool
is_zero (pos v) = v == 0
is_zero (negsuc v) = Bool.false

-- The `do` loop: it stores the digits of the value from the last to the first.
unfoldable pub put_digits : ℕ → ℕ → ℤ → ℕ → Memory → Option (ℕ × Memory)
put_digits zero ptr value base m = none
put_digits (suc k) ptr value base m =
    let m' = write m ptr (digit_char value base) in
    let value' = quotient value base in
    let rest = put_digits k (ptr + 1) value' base m' in
    if is_zero value' then some (ptr + 1, m') else rest

-- The loop that turns the digits round, with `low` and `ptr` at the two ends.
pub swap_ends : ℕ → ℕ → ℕ → Memory → Option Memory
swap_ends zero low ptr m = none
swap_ends (suc k) low ptr m =
    let rest = swap_ends k (low + 1) (ptr - 1) (write (write m low (m ptr)) ptr (m low)) in
    if ltb low ptr then rest else some m

unfoldable pub itoa : ℕ → ℤ → ℕ → ℕ → Memory → Option Memory
itoa fuel value str base m = if ltb base 2 || ltb 36 base then some (write m str 0) else do
  let neg = ltb_ℤ value (pos 0) && base == 10
  let m1 = if neg then write m str b'-' else m
  let low = if neg then str + 1 else str
  (ptr, m2) ← put_digits fuel low value base m1
  swap_ends fuel low (ptr - 1) (write m2 ptr 0)
