-- ===== src/Libc/Stdlib/Itoa.antt =====
-- The decimal text that `itoa` leaves in memory.
use ogos.Prelude.{
  ℕ, suc, ◌+◌, ◌-◌, ◌^◌, ◌<◌, ◌≤◌, ◌≡◌, ◌∙◌, inl, inr, ◌⊎◌, some, true, arith, if◌then◌else◌,
  Bool-cases,
}
use ogos.Prelude.Int.{ℤ, pos, ltb_ℤ}
use ogos.Libc.Memory.{Memory, write}
use ogos.Libc.Stdlib.{put_digits, swap_ends, itoa}
use ogos.Libc.Stdlib.Digits.{
  magnitude, digit, Digits, Stored, put_digits_lem, Reversed, Turned, swap_ends-Reversed,
}

-- The address of the first digit: a negative number has its sign before it.
abbrev pub first_digit : ℤ → ℕ → ℕ
first_digit v str = if ltb_ℤ v (pos 0) then str + 1 else str

-- m' is m with the decimal text of v at str: a sign for a negative v, the k digits of the magnitude
-- from the first to the last, and a zero byte.
pub record Printed (v : ℤ) (str k : ℕ) (m m' : Memory) : Type 0 where
  pub some_digit : 0 < k
  pub all : magnitude v < 10 ^ k
  pub sign : ltb_ℤ v (pos 0) ≡ true → m' str ≡ b'-'
  pub digits : (i : ℕ) → i < k → m' (first_digit v str + i) ≡ digit (magnitude v) (k - 1 - i)
  pub stop : m' (first_digit v str + k) ≡ 0
  pub same : (a : ℕ) → (a < str) ⊎ (first_digit v str + k < a) → m' a ≡ m a

abbrev pub Prints : ℕ → ℤ → ℕ → Memory → Type 0
Prints fuel v str m =
    (k : ℕ) × (m' : Memory) × (itoa fuel v str 10 m ≡ some m') × (k ≤ fuel) × Printed v str k m m'

-- The digits stored from the last to the first (m2), ended by a zero byte and turned round (m').
module _ (x low k : ℕ) (m1 m2 m' : Memory) (d : Digits x low k m1 m2)
    (r : Reversed low (low + k - 1) (write m2 (low + k) 0) m') where
  turned_digits : (i : ℕ) → i < k → m' (low + i) ≡ digit x (k - 1 - i)
  turned_digits i h =
      let e : low + (low + k - 1) - (low + i) ≡ low + (k - 1 - i) = omega arith in
      r.turned (low + i) (omega arith) (omega arith)
      ∙ rw e (ground (arith, d.digits (k - 1 - i) (omega arith)))

  turned_stop : m' (low + k) ≡ 0
  turned_stop = ground (arith, d.some_digit, r.same (low + k))

  turned_same : (a : ℕ) → (a < low) ⊎ (low + k < a) → m' a ≡ m1 a
  turned_same a (inl o) = ground (arith, r.same a, d.same a)
  turned_same a (inr o) = ground (arith, d.some_digit, r.same a, d.same a)

-- Memory with the sign of v stored.
abbrev signed : ℤ → ℕ → Memory → Memory
signed v str m = if ltb_ℤ v (pos 0) then write m str b'-' else m

printed :
    (v : ℤ) (str k : ℕ) (m m2 m' : Memory)
    → Digits (magnitude v) (first_digit v str) k (signed v str m) m2
    → Reversed
        (first_digit v str)
        (first_digit v str + k - 1)
        (write m2 (first_digit v str + k) 0)
        m'
    → Printed v str k m m'
printed v str k m m2 m' d r = record {
  some_digit = d.some_digit;
  all = d.all;
  sign = λ neg. ground (arith, turned_same _ _ k _ m2 m' d r str);
  digits = turned_digits _ _ k _ m2 m' d r;
  stop = turned_stop _ _ k _ m2 m' d r;
  same = λ a o. ground (arith, turned_same _ _ k _ m2 m' d r a);
}

-- `itoa` in base 10, with the two loops done.
itoa_run :
    (fuel str k : ℕ) (v : ℤ) (m m2 m' : Memory)
    → put_digits fuel (first_digit v str) v 10 (signed v str m) ≡ some (first_digit v str + k, m2)
    → swap_ends fuel
        (first_digit v str)
        (first_digit v str + k - 1)
        (write m2 (first_digit v str + k) 0)
      ≡ some m'
    → itoa fuel v str 10 m ≡ some m'
unfolding itoa
itoa_run fuel str k v m m2 m' stored turned = elim (Bool-cases (ltb_ℤ v (pos 0))) [
  | inl neg ↦ let s = rw neg at stored in let t = rw neg at turned in rw (neg, s) t
  | inr non ↦ let s = rw non at stored in let t = rw non at turned in rw (non, s) t
]

itoa_reversed :
    (f str : ℕ) (v : ℤ) (m : Memory)
    → 0 < f
    → Stored (suc f) (first_digit v str) v (signed v str m)
    → Prints (suc f) v str m
unfolding Stored Turned
itoa_reversed f str v m h (k, m2, stored, few, d) =
    let (m', turned, r) =
      swap_ends-Reversed f (first_digit v str) (first_digit v str + k - 1)
        (write m2 (first_digit v str + k) 0) (omega (arith, d.some_digit))
        (omega (arith, d.some_digit)) in
    (k, m', itoa_run (suc f) str k v m m2 m' stored turned, few, printed v str k m m2 m' d r)

-- On fuel f + 1, at least 2, `itoa` prints every number of at most f + 1 decimal digits: it leaves
-- at str the sign of a negative number, the digits of the magnitude and a zero byte, and changes no
-- other byte.
pub itoa-Prints :
    (f str : ℕ) (v : ℤ) (m : Memory) → 0 < f → magnitude v < 10 ^ suc f → Prints (suc f) v str m
itoa-Prints f str v m h small =
    itoa_reversed f str v m h (put_digits_lem f (first_digit v str) v (signed v str m) small)
