-- ===== src/Fs/Tar/Octal.antt =====
-- The sizes that headers hold, in octal digits.
use ogos.Prelude.{
  ℕ, zero, suc, ◌+◌, ◌*◌, ◌/◌, ◌%◌, ◌-◌, ◌^◌, ◌<◌, ◌≡◌, ap, sym, ◌∙◌, Bool, true, ◌&&◌, arith, leb,
}
use ogos.Prelude.Words.{add32, sub32, mul32}
use native.Mathlib.Nat.{div-add-mod, mul-add-mod_self_left}
use ogos.Fs.Tar.{char32, getsize_from, getsize}

-- the number that j octal digits from an address on stand for
abbrev pub octal : (ℕ → ℕ) → ℕ → ℕ → ℕ
octal memory field zero = 0
octal memory field (suc j) = octal memory field j * 8 + (memory (field + j) - 48)

-- j characters from an address on are octal digits
abbrev pub digits : (ℕ → ℕ) → ℕ → ℕ → Bool
digits memory field zero = true
digits memory field (suc j) =
    (leb 48 (memory (field + j)) && leb (memory (field + j)) 55) && digits memory field j

mul_mod : (a b : ℕ) → a * (b % 2 ^ 32) % 2 ^ 32 ≡ a * b % 2 ^ 32
mul_mod a b =
    let q = b / 2 ^ 32 in
    let split : a * b ≡ 2 ^ 32 * (a * q) + a * (b % 2 ^ 32) =
      ap (λ x. a * x) (sym (div-add-mod b (2 ^ 32))) ∙ grind arith in
    sym (ap (λ x. x % 2 ^ 32) split ∙ mul-add-mod_self_left (2 ^ 32) (a * q) (a * (b % 2 ^ 32)))

step :
    (size o d c : ℕ)
    → (add32 size (mul32 d c) + o * mul32 c 8) % 2 ^ 32 ≡ (size + (o * 8 + d) * c) % 2 ^ 32
step size o d c =
    let whole : size + (o * 8 + d) * c ≡ size + d * c + o * (c * 8) = grind arith in
    omega (arith, mul_mod o (c * 8)) ∙ ap (λ x. x % 2 ^ 32) (sym whole)

getsize_from_lem :
    (memory : ℕ → ℕ) (field j size count : ℕ)
    → digits memory field j ≡ true
    → field + j < 2 ^ 32
    → size < 2 ^ 32
    → getsize_from memory field j size count ≡ (size + octal memory field j * count) % 2 ^ 32
unfolding getsize_from char32
getsize_from_lem memory field zero size count d h b = omega arith
getsize_from_lem memory field (suc j) size count d h b =
    let at : add32 field j ≡ field + j = omega arith in
    let digit = memory (field + j) - 48 in
    let value : sub32 (char32 (memory (add32 field j))) 48 ≡ digit = rw at (ground arith) in
    let rest =
      getsize_from_lem memory field j (add32 size (mul32 digit count)) (mul32 count 8)
        (ground arith) (omega arith) (omega arith) in
    rw value (rest ∙ step size (octal memory field j) digit count)

-- The size of a header is the number that its eleven octal digits stand for, modulo 2^32.
pub getsize-octal :
    (memory : ℕ → ℕ) (field : ℕ)
    → digits memory field 11 ≡ true
    → field + 11 < 2 ^ 32
    → getsize memory field ≡ octal memory field 11 % 2 ^ 32
unfolding getsize
getsize-octal memory field d h =
    getsize_from_lem memory field 11 0 1 d h (omega arith) ∙ omega arith
