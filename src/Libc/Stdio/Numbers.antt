-- ===== src/Libc/Stdio/Numbers.antt =====
-- The texts of the numbers that `printf` prints: kernel/src/libc/stdio.c, and `itoa` of stdlib.c in each base.
use native.Mathlib.Nat.{pow-suc, div-lt_iff_lt-mul, mul-le-mul_right}
use ogos.Prelude.{
  ℕ, zero, suc, ◌+◌, ◌-◌, ◌*◌, ◌/◌, ◌^◌, ◌<◌, ◌≤◌, ◌≡◌, ◌≢◌, ◌∙◌, refl, ap, some, Bool, true, false,
  List, ◌==◌, ltb, ◌&&◌, ◌||◌, arith, Bool-cases, inl, inr, if◌then◌else◌,
}
use ogos.Prelude.Int.{ℤ, pos, negsuc, ltb_ℤ}
use ogos.Libc.Memory.{Memory, write, strlen_loop, strlen, text_at}
use ogos.Libc.Stdlib.{put_digits, swap_ends, itoa, quotient, digit_char, is_zero}
use ogos.Libc.Stdlib.Digits.{magnitude, is_zero-magnitude, Turned, swap_ends-Reversed}
use ogos.Libc.Stdio.{number}

magnitude_lem : (v : ℤ) (base : ℕ) → magnitude (quotient v base) ≡ magnitude v / base
magnitude_lem (pos v) base = ground arith
magnitude_lem (negsuc v) base = ground arith

halved : (x base f : ℕ) → 2 ≤ base → x < 2 ^ suc f → x / base < 2 ^ f
halved x base f h p =
    let e : 2 ^ suc f ≡ 2 * 2 ^ f = omega (arith, pow-suc 2 f) in
    let grown : 2 * 2 ^ f ≤ base * 2 ^ f = mul-le-mul_right (2 ^ f) h in
    let pos_base : 0 < base = omega arith in
    let swap : base * 2 ^ f ≡ 2 ^ f * base = omega arith in
    (div-lt_iff_lt-mul pos_base).1 (omega arith)

-- The digits of a number of at most b + 1 bits are stored on more fuel than b.
put_digits_total :
    (b f ptr base : ℕ) (v : ℤ) (m : Memory)
    → b ≤ f
    → 2 ≤ base
    → magnitude v < 2 ^ suc b
    → (stop : ℕ) × (m' : Memory) × (put_digits (suc f) ptr v base m ≡ some (stop, m'))
      × (ptr < stop)
      × (stop ≤ ptr + suc b)
unfolding put_digits
put_digits_total zero f ptr base v m le h p =
    let none_left : is_zero (quotient v base) ≡ true = ground (
      arith,
      is_zero-magnitude (quotient v base),
      magnitude_lem v base,
      halved (magnitude v) base 0 h p,
    ) in
    (ptr + 1, write m ptr (digit_char v base), rw none_left refl, omega arith, omega arith)
put_digits_total (suc b) zero ptr base v m le h p = absurd (omega arith)
put_digits_total (suc b) (suc f) ptr base v m le h p =
    elim (Bool-cases (is_zero (quotient v base))) [
      | inl z ↦ (ptr + 1, write m ptr (digit_char v base), rw z refl, omega arith, omega arith)
      | inr nz ↦
          let small : magnitude (quotient v base) < 2 ^ suc b =
            rw (magnitude_lem v base) (halved (magnitude v) base (suc b) h p) in
          let (stop, m', run, lo, hi) =
            put_digits_total b f (ptr + 1) base (quotient v base) (write m ptr (digit_char v base))
              (omega arith) h small in
          (stop, m', rw nz run, omega arith, omega arith)
    ]

strlen_total :
    (f string result : ℕ) (m : Memory) (stop : ℕ)
    → result ≤ stop
    → stop < result + f
    → m (string + stop) ≡ 0
    → (n : ℕ) × (strlen_loop f string result m ≡ some n)
unfolding strlen_loop
strlen_total zero string result m stop p q z = absurd (omega arith)
strlen_total (suc f) string result m stop p q z = elim (Bool-cases (m (string + result) == 0)) [
  | inl e ↦ (result, rw e refl)
  | inr e ↦
      let later : result ≢ stop = λ same.
        let d : m (string + result) ≡ 0 = ap (λ r. m (string + r)) same ∙ z in ground arith in
      let (n, run) = strlen_total f string (result + 1) m stop (omega arith) (omega arith) z in
      (n, rw e run)
]

-- The two loops of `itoa` from low on, which is 0 or 1, and the `strlen` of the text from 0 on.
module _ (low base : ℕ) (v : ℤ) (m : Memory) (lo : low ≤ 1) (h : 2 ≤ base)
    (p : magnitude v < 2 ^ 38) where
  loops_total :
      (stop : ℕ) × (m2 : Memory) × (m' : Memory) × (n : ℕ) × (put_digits 40 low v base m
        ≡ some (stop, m2))
      × (swap_ends 40 low (stop - 1) (write m2 stop 0) ≡ some m')
      × (strlen 40 0 m' ≡ some n)
  unfolding strlen Turned
  loops_total =
      let (stop, m2, stored, lt, le) = put_digits_total 37 39 low base v m (omega arith) h p in
      let (m', turned, r) =
        swap_ends-Reversed 39 low (stop - 1) (write m2 stop 0) (omega arith) (omega arith) in
      let ended : m' stop ≡ 0 = r.same stop (inr (omega arith)) ∙ ground arith in
      let d : 0 + stop ≡ stop = omega arith in
      let (n, len) = strlen_total 40 0 0 m' stop (omega arith) (omega arith) (ap m' d ∙ ended) in
      (stop, m2, m', n, stored, turned, len)

module _ (v : ℤ) (base : ℕ) (buf : Memory) (h : 2 ≤ base) (h' : base ≤ 36)
    (p : magnitude v < 2 ^ 38) where
  abbrev Total : Type 0
  Total = (text : List ℕ) × (buf' : Memory) × (number v base buf ≡ some (text, buf'))

  signed_total : (b : Bool) → (ltb_ℤ v (pos 0) && (base == 10)) ≡ b → Total
  unfolding number itoa
  signed_total b e =
      let in_range : (ltb base 2 || ltb 36 base) ≡ false = ground arith in
      let (stop, m2, m', n, stored, turned, len) =
        loops_total (if b then 0 + 1 else 0) base v (if b then write buf 0 b'-' else buf)
          (ground arith) h p in
      (text_at n 0 m', m', rw (in_range, e, stored, turned, len) refl)

  -- On fuel 40, which `number` has, `itoa` and the `strlen` behind it return for every number of at most 38
  -- bits in each base from 2 to 36.
  pub number_total : Total
  number_total = signed_total (ltb_ℤ v (pos 0) && (base == 10)) refl
