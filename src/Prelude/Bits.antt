-- ===== src/Prelude/Bits.antt =====
-- Bits of machine words: `test_bit x k` is bit k of x, and each bitwise operation is known by
-- the bits of its result. A bit is 0 or 1.
use Prim.Native.Nat.{
  ℕ, zero, suc, ◌+◌, ◌-◌, ◌*◌, ◌/◌, ◌%◌, ◌^◌, ◌≤◌, ◌<◌, min, max, bit_and, bit_or, digits, bitwise,
  bit_and-bitwise, bit_or-bitwise,
}
use mathlib.Core.Path.{◌≡◌, refl, sym, ◌∙◌, ap}
use mathlib.Core.Logic.{◌≢◌, inl, inr}
use mathlib.Core.Bool.{not}
use native.Mathlib.Omega.{arith}
use native.Mathlib.Nat.{
  pow-suc, div-add-mod, mod-lt, mod-eq_of_lt, mul-add-mod_self_left, mul_assoc,
}
use ogos.Prelude.Tests.{◌==◌, Bool-cases}

abbrev pub test_bit : ℕ → ℕ → ℕ
test_bit x zero = x % 2
test_bit x (suc k) = test_bit (x / 2) k

pub test_bit-lt : (x k : ℕ) → test_bit x k < 2
test_bit-lt x zero = omega arith
test_bit-lt x (suc k) = test_bit-lt (x / 2) k

-- Both operations recurse on the halves of their operands, for as many steps as a number that is
-- at least the first operand.
module _ (unary : ℕ → ℕ) (op : ℕ → ℕ → ℕ) where
  one_more :
      (steps x y : ℕ) → x ≤ steps → digits unary op (suc steps) x y ≡ digits unary op steps x y
  one_more zero zero y le = refl
  one_more (suc steps) zero y le = refl
  one_more zero (suc x) y le = elim le [ ]
  one_more (suc steps) (suc x) y le =
      omega (arith, one_more steps (suc x / 2) (y / 2) (omega arith))

  more : (k steps x y : ℕ) → x ≤ steps → digits unary op (k + steps) x y ≡ digits unary op steps x y
  more zero steps x y le = ap (λ n. digits unary op n x y) (omega arith)
  more (suc k) steps x y le =
      let first : suc k + steps ≡ suc (k + steps) = omega arith in
      ap (λ n. digits unary op n x y) first
      ∙ one_more (k + steps) x y (omega arith)
      ∙ more k steps x y le

  bitwise_halves :
      (x y : ℕ)
      → 0 < x
      → bitwise unary op x y ≡ bitwise unary op (x / 2) (y / 2) * 2 + op (x % 2) (y % 2)
  bitwise_halves zero y positive = elim positive [ ]
  bitwise_halves (suc x) y positive =
      let half = suc x / 2 in
      let steps : x ≡ (x - half) + half = omega arith in
      let rest =
        ap (λ n. digits unary op n half (y / 2)) steps
        ∙ more (x - half) half half (y / 2) (omega arith) in
      omega (arith, rest)

pub bit_and_step : (a b : ℕ) → bit_and a b ≡ bit_and (a / 2) (b / 2) * 2 + min (a % 2) (b % 2)
bit_and_step zero b = omega (arith, bit_and-bitwise zero b, bit_and-bitwise zero (b / 2))
bit_and_step (suc a) b =
    bit_and-bitwise (suc a) b
    ∙ bitwise_halves (λ _. zero) min (suc a) b (omega arith)
    ∙ ap (λ n. n * 2 + min (suc a % 2) (b % 2)) (sym (bit_and-bitwise (suc a / 2) (b / 2)))

pub bit_or_step : (a b : ℕ) → bit_or a b ≡ bit_or (a / 2) (b / 2) * 2 + max (a % 2) (b % 2)
bit_or_step zero b = omega (arith, bit_or-bitwise zero b, bit_or-bitwise zero (b / 2))
bit_or_step (suc a) b =
    bit_or-bitwise (suc a) b
    ∙ bitwise_halves (λ n. n) max (suc a) b (omega arith)
    ∙ ap (λ n. n * 2 + max (suc a % 2) (b % 2)) (sym (bit_or-bitwise (suc a / 2) (b / 2)))

-- The bits of `a & b` and `a | b`.
pub test_bit-bit_and : (a b k : ℕ) → test_bit (bit_and a b) k ≡ min (test_bit a k) (test_bit b k)
test_bit-bit_and a b zero = omega (arith, bit_and_step a b)
test_bit-bit_and a b (suc k) =
    ap (λ x. test_bit x k) (omega (arith, bit_and_step a b)) ∙ test_bit-bit_and (a / 2) (b / 2) k

pub test_bit-bit_or : (a b k : ℕ) → test_bit (bit_or a b) k ≡ max (test_bit a k) (test_bit b k)
test_bit-bit_or a b zero = omega (arith, bit_or_step a b)
test_bit-bit_or a b (suc k) =
    ap (λ x. test_bit x k) (omega (arith, bit_or_step a b)) ∙ test_bit-bit_or (a / 2) (b / 2) k

pub test_bit-zero : (k : ℕ) → test_bit 0 k ≡ 0
test_bit-zero zero = refl
test_bit-zero (suc k) = test_bit-zero k

-- The one bit of `1 << k`.
pub test_bit-pow_self : (k : ℕ) → test_bit (2 ^ k) k ≡ 1
test_bit-pow_self zero = refl
test_bit-pow_self (suc k) =
    ap (λ x. test_bit x k) (omega (arith, pow-suc 2 k)) ∙ test_bit-pow_self k

pub test_bit-pow_ne : (k j : ℕ) → k ≢ j → test_bit (2 ^ k) j ≡ 0
test_bit-pow_ne zero zero h = absurd (h refl)
test_bit-pow_ne zero (suc j) h = test_bit-zero j
test_bit-pow_ne (suc k) zero h = omega (arith, pow-suc 2 k)
test_bit-pow_ne (suc k) (suc j) h =
    ap (λ x. test_bit x j) (omega (arith, pow-suc 2 k)) ∙ test_bit-pow_ne k j (λ e. h (ap suc e))

pub pow_pos : (w : ℕ) → 0 < 2 ^ w
pow_pos zero = omega arith
pow_pos (suc w) = omega (arith, pow-suc 2 w, pow_pos w)

-- `~y` on w bits.
abbrev pub complement : ℕ → ℕ → ℕ
complement w y = 2 ^ w - 1 - y

pub test_bit-complement :
    (w y k : ℕ) → y < 2 ^ w → k < w → test_bit (complement w y) k ≡ 1 - test_bit y k
test_bit-complement zero y k hy hk = absurd (omega arith)
test_bit-complement (suc w) y zero hy hk = omega (arith, pow-suc 2 w, pow_pos w)
test_bit-complement (suc w) y (suc k) hy hk =
    ap (λ x. test_bit x k) (omega (arith, pow-suc 2 w, pow_pos w))
    ∙ test_bit-complement w (y / 2) k (omega (arith, pow-suc 2 w)) (omega arith)

no_bits : (bound x : ℕ) → x ≤ bound → bit_and x 0 ≡ 0
no_bits bound zero le = refl
no_bits zero (suc x) le = elim le [ ]
no_bits (suc bound) (suc x) le =
    let upper = no_bits bound (suc x / 2) (omega arith) in
    omega (arith, bit_and_step (suc x) 0, upper)

-- `x & (1 << k)` is bit k, in its place.
pub bit_and-pow : (x k : ℕ) → bit_and x (2 ^ k) ≡ test_bit x k * 2 ^ k
bit_and-pow x zero = omega (arith, bit_and_step x 1, no_bits (x / 2) (x / 2) (omega arith))
bit_and-pow x (suc k) =
    let half : 2 ^ suc k / 2 ≡ 2 ^ k = omega (arith, pow-suc 2 k) in
    let low : 2 ^ suc k % 2 ≡ 0 = omega (arith, pow-suc 2 k) in
    bit_and_step x (2 ^ suc k) ∙ rw (half, low, bit_and-pow (x / 2) k) (grind (arith, pow-suc 2 k))

-- `1 << k` is a word of w bits.
pub pow-lt_pow : (k w : ℕ) → k < w → 2 ^ k < 2 ^ w
pow-lt_pow zero (suc w) h = omega (arith, pow-suc 2 w, pow_pos w)
pow-lt_pow (suc k) (suc w) h = omega (arith, pow-suc 2 k, pow-suc 2 w, pow-lt_pow k w (omega arith))
pow-lt_pow k zero h = elim h [ ]

halves : (x m : ℕ) → 0 < m → x % (2 * m) ≡ 2 * (x / 2 % m) + x % 2
halves x m h =
    let q = x / 2 / m in
    let c = 2 * (x / 2 % m) + x % 2 in
    let split : x ≡ 2 * m * q + c = omega (arith, div-add-mod (x / 2) m, mul_assoc 2 m q) in
    let small : c < 2 * m = omega (arith, mod-lt (x / 2) h) in
    ap (λ y. y % (2 * m)) split ∙ mul-add-mod_self_left (2 * m) q c ∙ mod-eq_of_lt small

-- A mask of low bits takes a remainder.
pub bit_and-mask : (x w : ℕ) → bit_and x (2 ^ w - 1) ≡ x % 2 ^ w
bit_and-mask x zero = no_bits x x (omega arith) ∙ omega arith
bit_and-mask x (suc w) =
    let half : (2 ^ suc w - 1) / 2 ≡ 2 ^ w - 1 = omega (arith, pow-suc 2 w, pow_pos w) in
    let low : (2 ^ suc w - 1) % 2 ≡ 1 = omega (arith, pow-suc 2 w, pow_pos w) in
    let rest = bit_and-mask (x / 2) w in
    let twice : 2 ^ suc w ≡ 2 * 2 ^ w = omega (arith, pow-suc 2 w) in
    bit_and_step x (2 ^ suc w - 1)
    ∙ rw (half, low, rest, twice, halves x (2 ^ w) (pow_pos w)) (omega arith)

-- A remainder keeps the low bits.
pub test_bit-mod : (x w k : ℕ) → k < w → test_bit (x % 2 ^ w) k ≡ test_bit x k
test_bit-mod x w k h =
    let same : 2 ^ w - 1 ≡ complement w 0 = omega arith in
    let all_ones : test_bit (2 ^ w - 1) k ≡ 1 =
      ap (λ y. test_bit y k) same
      ∙ test_bit-complement w 0 k (pow_pos w) h
      ∙ ap (λ b. 1 - b) (test_bit-zero k) in
    ap (λ y. test_bit y k) (sym (bit_and-mask x w))
    ∙ test_bit-bit_and x (2 ^ w - 1) k
    ∙ omega (arith, all_ones, test_bit-lt x k)

-- `x & (1 << k)` is 0 where bit k is not set.
pub bit_and-pow_test : (x k : ℕ) → (bit_and x (2 ^ k) == 0) ≡ not (test_bit x k == 1)
bit_and-pow_test x k = elim (Bool-cases (test_bit x k == 1)) [
  | inl on ↦
      let one : test_bit x k ≡ 1 = ground arith in
      let value : bit_and x (2 ^ k) ≡ 2 ^ k = bit_and-pow x k ∙ rw one (omega arith) in
      rw (on, value) (ground (arith, pow_pos k))
  | inr off ↦
      let zeros : test_bit x k ≡ 0 = ground (arith, test_bit-lt x k) in
      let value : bit_and x (2 ^ k) ≡ 0 = bit_and-pow x k ∙ rw zeros (omega arith) in
      rw (off, value) refl
]

-- Below a number that is shifted by w, `|` puts w bits.
pub bit_or_shift : (w c x : ℕ) → c < 2 ^ w → bit_or c (x * 2 ^ w) ≡ x * 2 ^ w + c
bit_or_shift zero zero x h = bit_or-bitwise zero (x * 2 ^ 0) ∙ omega arith
bit_or_shift zero (suc c) x h = absurd (omega arith)
bit_or_shift (suc w) c x h =
    let twice : x * 2 ^ suc w ≡ x * 2 ^ w * 2 =
      ap (λ p. x * p) (omega (arith, pow-suc 2 w)) ∙ sym (mul_assoc x (2 ^ w) 2) in
    let half : x * 2 ^ w * 2 / 2 ≡ x * 2 ^ w = omega arith in
    let low : x * 2 ^ w * 2 % 2 ≡ 0 = omega arith in
    let rest = bit_or_shift w (c / 2) x (omega (arith, pow-suc 2 w)) in
    rw twice (bit_or_step c (x * 2 ^ w * 2) ∙ rw (half, low, rest) (omega arith))

-- A mask with no lowest bit, one bit lower.
pub bit_and_even : (x m : ℕ) → m % 2 ≡ 0 → bit_and x m / 2 ≡ bit_and (x / 2) (m / 2)
bit_and_even x m even = omega (arith, bit_and_step x m)

twice_even : (x m : ℕ) → m % 2 ≡ 0 → bit_and x m ≡ bit_and (x / 2) (m / 2) * 2
twice_even x m even = omega (arith, bit_and_step x m)

-- The mask of a page's number, in a word of 32 bits.
pub bit_and-page : (x : ℕ) → x < 2 ^ 32 → bit_and x 0xFFFFF000 ≡ x / 0x1000 * 0x1000
bit_and-page x h =
    let x1 = x / 2 in
    let x2 = x1 / 2 in
    let x3 = x2 / 2 in
    let x4 = x3 / 2 in
    let x5 = x4 / 2 in
    let x6 = x5 / 2 in
    let x7 = x6 / 2 in
    let x8 = x7 / 2 in
    let x9 = x8 / 2 in
    let x10 = x9 / 2 in
    let x11 = x10 / 2 in
    omega (
      arith,
      twice_even x 4294963200 refl,
      twice_even x1 2147481600 refl,
      twice_even x2 1073740800 refl,
      twice_even x3 536870400 refl,
      twice_even x4 268435200 refl,
      twice_even x5 134217600 refl,
      twice_even x6 67108800 refl,
      twice_even x7 33554400 refl,
      twice_even x8 16777200 refl,
      twice_even x9 8388600 refl,
      twice_even x10 4194300 refl,
      twice_even x11 2097150 refl,
      bit_and-mask (x11 / 2) 20,
    )
