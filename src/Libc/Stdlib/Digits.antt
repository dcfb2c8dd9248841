-- ===== src/Libc/Stdlib/Digits.antt =====
-- The two loops of `itoa` in base 10: the digits of the magnitude, and their reversal.
use native.Mathlib.Nat.{div-div-eq-div-mul, pow-suc}
use ogos.Prelude.{
  ℕ, zero, suc, ◌+◌, ◌-◌, ◌*◌, ◌/◌, ◌%◌, ◌^◌, ◌<◌, ◌≤◌, ◌≡◌, refl, ap, ◌∙◌, inl, inr, ◌⊎◌, some,
  true, false, ◌&&◌, arith, ltb, ◌==◌, Bool-cases, get_or, all_below, all_below_sound,
}
use ogos.Prelude.Int.{ℤ, pos, negsuc, pos_part, neg_part}
use ogos.Libc.Memory.{Memory, write}
use ogos.Libc.Memory.Blocks.{inside}
use ogos.Libc.Stdlib.{digit_char, digit_table, quotient, is_zero, put_digits, swap_ends}

abbrev pub magnitude : ℤ → ℕ
magnitude v = pos_part v + neg_part v

-- Digit i of x, counted from the last, as a character.
abbrev pub digit : ℕ → ℕ → ℕ
digit x i = b'0' + x / 10 ^ i % 10

digits_table :
    all_below 10 (λ d.
      (get_or digit_table (35 + d) 0 == b'0' + d) && (get_or digit_table (35 - d) 0 == b'0' + d))
    ≡ true
unfolding all_below digit_table
digits_table = refl

table_digit :
    (d : ℕ)
    → d < 10
    → (get_or digit_table (35 + d) 0 ≡ b'0' + d) × (get_or digit_table (35 - d) 0 ≡ b'0' + d)
table_digit d h = ground (arith, all_below_sound 10 _ d digits_table h)

digit_char_lem : (v : ℤ) → digit_char v 10 ≡ digit (magnitude v) 0
unfolding digit_char
digit_char_lem (pos v) = (table_digit (v % 10) (omega arith)).0 ∙ omega arith
digit_char_lem (negsuc v) = (table_digit (suc v % 10) (omega arith)).1 ∙ omega arith

digit-suc : (x i : ℕ) → digit (x / 10) i ≡ digit x (suc i)
digit-suc x i =
    let e : 10 ^ suc i ≡ 10 * 10 ^ i = omega (arith, pow-suc 10 i) in rw (e, ← div-div-eq-div-mul)

magnitude-quotient : (v : ℤ) → magnitude (quotient v 10) ≡ magnitude v / 10
magnitude-quotient (pos v) = omega arith
magnitude-quotient (negsuc v) = ground arith

pub is_zero-magnitude : (v : ℤ) → is_zero v ≡ (magnitude v == 0)
is_zero-magnitude (pos v) = ground arith
is_zero-magnitude (negsuc v) = ground arith

-- m' is m with the k digits of x stored from `low` on, the last digit first.
pub record Digits (x low k : ℕ) (m m' : Memory) : Type 0 where
  pub some_digit : 0 < k
  pub all : x < 10 ^ k
  pub digits : (i : ℕ) → i < k → m' (low + i) ≡ digit x i
  pub same : (a : ℕ) → inside low k a ≡ false → m' a ≡ m a

unfoldable pub Stored : ℕ → ℕ → ℤ → Memory → Type 0
Stored fuel ptr v m =
    (k : ℕ) × (m' : Memory) × (put_digits fuel ptr v 10 m ≡ some (ptr + k, m'))
    × (k ≤ fuel)
    × Digits (magnitude v) ptr k m m'

Stored-last : (f ptr : ℕ) (v : ℤ) (m : Memory) → magnitude v < 10 → Stored (suc f) ptr v m
unfolding put_digits Stored
Stored-last f ptr v m h =
    let z : is_zero (quotient v 10) ≡ true =
      ground (arith, is_zero-magnitude (quotient v 10), magnitude-quotient v) in
    (
      1,
      write m ptr (digit_char v 10),
      rw z,
      omega arith,
      record {
        some_digit = omega arith;
        all = omega arith;
        digits = λ i p. ground (arith, digit_char_lem v);
        same = λ a o. ground arith;
      },
    )

Digits-cons :
    (ptr k : ℕ) (v : ℤ) (m m' : Memory)
    → Digits (magnitude (quotient v 10)) (ptr + 1) k (write m ptr (digit_char v 10)) m'
    → (i : ℕ) → i < suc k
    → m' (ptr + i) ≡ digit (magnitude v) i
Digits-cons ptr k v m m' d zero h = ground (arith, d.same ptr, digit_char_lem v)
Digits-cons ptr k v m m' d (suc i) h =
    let e : ptr + suc i ≡ ptr + 1 + i = omega arith in
    rw e (d.digits i (omega arith) ∙ rw (magnitude-quotient v) (digit-suc (magnitude v) i))

Stored-more :
    (f ptr : ℕ) (v : ℤ) (m : Memory)
    → is_zero (quotient v 10) ≡ false
    → Stored f (ptr + 1) (quotient v 10) (write m ptr (digit_char v 10))
    → Stored (suc f) ptr v m
unfolding put_digits Stored
Stored-more f ptr v m nz (k, m', e, few, d) =
    let mag = magnitude-quotient v in
    let all : magnitude v / 10 < 10 ^ k = rw mag at d.all in
    (
      suc k,
      m',
      rw (nz, e) (ap (λ p. some (p, m')) (omega arith)),
      omega arith,
      record {
        some_digit = omega arith;
        all = omega (arith, all, pow-suc 10 k);
        digits = Digits-cons ptr k v m m' d;
        same = λ a o. ground (arith, d.same a);
      },
    )

-- On fuel f + 1 the loop stores every value of at most f + 1 digits.
pub put_digits_lem :
    (f ptr : ℕ) (v : ℤ) (m : Memory) → magnitude v < 10 ^ suc f → Stored (suc f) ptr v m
put_digits_lem zero ptr v m h = Stored-last 0 ptr v m (omega arith)
put_digits_lem (suc f) ptr v m h = elim (Bool-cases (is_zero (quotient v 10))) [
  | inl z ↦
      Stored-last (suc f) ptr v m
        (ground (arith, is_zero-magnitude (quotient v 10), magnitude-quotient v))
  | inr nz ↦ Stored-more (suc f) ptr v m nz (
      put_digits_lem f (ptr + 1) (quotient v 10) _
        (rw (magnitude-quotient v) (omega (arith, pow-suc 10 (suc f)))))
]

-- m' is m with the bytes from low up to ptr in reverse order.
pub record Reversed (low ptr : ℕ) (m m' : Memory) : Type 0 where
  pub turned : (a : ℕ) → low ≤ a → a ≤ ptr → m' a ≡ m (low + ptr - a)
  pub same : (a : ℕ) → (a < low) ⊎ (ptr < a) → m' a ≡ m a

unfoldable pub Turned : ℕ → ℕ → ℕ → Memory → Type 0
Turned k low ptr m = (m' : Memory) × (swap_ends k low ptr m ≡ some m') × Reversed low ptr m m'

Turned-step :
    (k low ptr : ℕ) (m : Memory)
    → low < ptr
    → Turned k (low + 1) (ptr - 1) (write (write m low (m ptr)) ptr (m low))
    → Turned (suc k) low ptr m
unfolding Turned swap_ends
Turned-step k low ptr m lt (m', e, r) = (
  m',
  ground arith,
  record {
    turned = λ a p q. ground (arith, r.turned a, r.same a);
    same = λ a o. ground (arith, r.same a);
  },
)

Turned-done : (k low ptr : ℕ) (m : Memory) → ptr ≤ low → low ≤ ptr + 1 → Turned (suc k) low ptr m
unfolding Turned swap_ends
Turned-done k low ptr m le le' =
    (m, ground arith, record { turned = λ a p q. ap m (omega arith); same = λ a o. refl })

-- The swaps turn the bytes between the two ends round, on fuel above half their number.
pub swap_ends-Reversed :
    (k low ptr : ℕ) (m : Memory) → low ≤ ptr + 1 → ptr < low + 2 * k → Turned (suc k) low ptr m
swap_ends-Reversed zero low ptr m h h' = Turned-done 0 low ptr m (omega arith) h
swap_ends-Reversed (suc k) low ptr m h h' = elim (Bool-cases (ltb low ptr)) [
  | inl lt ↦
      Turned-step (suc k) low ptr m (ground arith)
        (swap_ends-Reversed k (low + 1) (ptr - 1) _ (ground arith) (ground arith))
  | inr ge ↦ Turned-done (suc k) low ptr m (ground arith) h
]
