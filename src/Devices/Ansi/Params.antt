-- ===== src/Devices/Ansi/Params.antt =====
-- The number that a parameter stands for.
use ogos.Prelude.{
  ℕ, zero, suc, ◌+◌, ◌-◌, ◌*◌, ◌%◌, ◌^◌, ◌<◌, ◌≤◌, ◌≡◌, refl, ap, subst, ◌∙◌, Bool, true, false,
  ◌&&◌, ◌||◌, List, [], ◌∷◌, some, arith, leb, ◌==◌, length,
}
use ogos.Prelude.Int.{pos, ◌-ℤ◌}
use ogos.Libc.Ctype.{isspace, isdigit}
use ogos.Libc.Memory.{Memory}
use ogos.Libc.Stdlib.{char, read_digits, atoi}
use ogos.Libc.Stdlib.Atoi.{neg, step_value, not_digit, skip_none}
use ogos.Devices.Tty.{Ansi, write}
use ogos.Devices.Ansi.{store_param}

abbrev pub all_digits : List ℕ → Bool
all_digits [] = true
all_digits (d ∷ ds) = isdigit (char d) && all_digits ds

-- the number that digits stand for, behind the ones of acc
abbrev pub number_from : ℕ → List ℕ → ℕ
number_from acc [] = acc
number_from acc (d ∷ ds) = number_from (acc * 10 + (d - b'0')) ds

abbrev pub number : List ℕ → ℕ
number ds = number_from 0 ds

abbrev pub put_all : List ℕ → ℕ → (ℕ → ℕ) → ℕ → ℕ
put_all [] k buf = buf
put_all (d ∷ ds) k buf = put_all ds (k + 1) (write buf k d)

-- the buffer holds a string from s on
abbrev Spells : (ℕ → ℕ) → ℕ → List ℕ → Type 0
Spells m s [] = m s ≡ 0
Spells m s (d ∷ ds) = (m s ≡ d) × Spells m (s + 1) ds

put_all_below : (ds : List ℕ) (k j : ℕ) (buf : ℕ → ℕ) → j < k → put_all ds k buf j ≡ buf j
put_all_below [] k j buf h = refl
put_all_below (d ∷ ds) k j buf h =
    put_all_below ds (k + 1) j (write buf k d) (omega arith) ∙ ground arith

put_all-Spells :
    (ds : List ℕ) (k : ℕ) (buf : ℕ → ℕ) → Spells (write (put_all ds k buf) (k + length ds) 0) k ds
put_all-Spells [] k buf = ground arith
put_all-Spells (d ∷ ds) k buf =
    let e : k + 1 + length ds ≡ k + length (d ∷ ds) = omega arith in
    (
      ground (arith, put_all_below ds (k + 1) k (write buf k d)),
      subst (λ n. Spells (write (put_all (d ∷ ds) k buf) n 0) (k + 1) ds) e
          (put_all-Spells ds (k + 1) (write buf k d)),
    )

digit_range : (d : ℕ) → isdigit (char d) ≡ true → (48 ≤ d) × (d < 58)
unfolding isdigit
digit_range d h = ground arith

read_digits_run :
    (ds : List ℕ) (fuel s acc : ℕ) (m : Memory)
    → all_digits ds ≡ true
    → Spells m s ds
    → length ds < fuel
    → read_digits fuel s (neg acc) m ≡ some (neg (number_from acc ds))
unfolding read_digits
read_digits_run ds zero s acc m digits spells h = elim h [ ]
read_digits_run [] (suc k) s acc m digits spells h = rw (spells, not_digit) refl
read_digits_run (d ∷ ds) (suc k) s acc m digits (here, rest) h =
    let is_digit : isdigit (char d) ≡ true = ground arith in
    let (low, high) = digit_range d is_digit in
    let e : b'0' + (d - b'0') ≡ d = omega arith in
    let step = rw e at (step_value acc (d - b'0') (omega arith)) in
    rw (here, is_digit, step) (read_digits_run ds k (s + 1) _ m (ground arith) rest (omega arith))

no_sign :
    (ds : List ℕ) (m : Memory)
    → all_digits ds ≡ true
    → Spells m 0 ds
    → (isspace (char (m 0)) ≡ false) × ((m 0 == b'-') ≡ false) × ((m 0 == b'+') ≡ false)
unfolding isspace
no_sign [] m digits spells = ground arith
no_sign (d ∷ ds) m digits (here, rest) = ground (arith, digit_range d)

negated : (x : ℕ) → pos 0 -ℤ neg x ≡ pos x
unfolding ◌-ℤ◌
negated x = ground arith

atoi_run :
    (ds : List ℕ) (m : Memory)
    → all_digits ds ≡ true
    → Spells m 0 ds
    → length ds < 33
    → atoi 33 0 m ≡ some (pos (number ds))
unfolding atoi
atoi_run ds m digits spells h =
    let (no_space, no_minus, no_plus) = no_sign ds m digits spells in
    let run = read_digits_run ds 33 0 0 m digits spells h in
    rw (skip_none 32 0 m no_space, no_minus, no_plus, run) (ap some (negated (number ds)))

-- what a parameter leaves behind when it ends
abbrev pub stored : List ℕ → Ansi → Ansi
stored ds a = record a {
  buf = write (put_all ds 0 a.buf) (length ds) 0;
  args = write a.args a.current_arg (number ds % 2 ^ 32);
  current_arg = a.current_arg + 1;
  current_index = length ds;
}

-- the digits of a parameter, typed
abbrev pub typed : List ℕ → ℕ → Ansi → Ansi
typed ds k a = record a { buf = put_all ds k a.buf; current_index = k + length ds }

pub store_param_lem :
    (ds : List ℕ) (a : Ansi)
    → all_digits ds ≡ true
    → length ds < 32
    → a.current_arg < 32
    → store_param (typed ds 0 a) ≡ some (stored ds a)
unfolding store_param
store_param_lem ds a digits short few =
    let e : 0 + length ds ≡ length ds = omega arith in
    let room : (leb 32 (0 + length ds) || leb 32 a.current_arg) ≡ false = ground arith in
    let run =
      atoi_run ds (write (put_all ds 0 a.buf) (0 + length ds) 0) digits (put_all-Spells ds 0 a.buf)
        (omega arith) in
    rw (room, run) (rw e refl)
