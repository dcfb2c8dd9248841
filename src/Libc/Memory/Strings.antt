-- ===== src/Libc/Memory/Strings.antt =====
-- `strlen` and `strcmp` against the strings that stand in memory.
use ogos.Prelude.{
  ℕ, zero, suc, ◌+◌, ◌<◌, ◌≡◌, ◌≢◌, ◌↔◌, refl, some, List, [], ◌∷◌, arith, ltb, ◌==◌, if◌then◌else◌,
  length,
}
use ogos.Prelude.Int.{ℤ, pos, negsuc}
use ogos.Libc.Memory.{Memory, strcmp, strlen, strlen_loop}

-- The bytes xs stand at p, none of them zero, and a zero byte behind them.
abbrev pub IsString : Memory → ℕ → List ℕ → Type 0
IsString m p [] = m p ≡ 0
IsString m p (x ∷ xs) = (m p ≡ x) × (x ≢ 0) × IsString m (p + 1) xs

-- The order of two strings by their first difference.
abbrev pub lex : List ℕ → List ℕ → ℤ
lex [] [] = pos 0
lex [] (y ∷ ys) = negsuc 0
lex (x ∷ xs) [] = pos 1
lex (x ∷ xs) (y ∷ ys) = if x == y then lex xs ys else if ltb x y then negsuc 0 else pos 1

strlen_loop_lem :
    (k string result p : ℕ) (m : Memory) (xs : List ℕ)
    → string + result ≡ p
    → IsString m p xs
    → length xs < k
    → strlen_loop k string result m ≡ some (result + length xs)
unfolding strlen_loop
strlen_loop_lem zero string result p m xs e s h = elim h [ ]
strlen_loop_lem (suc k) string result p m [] e s h = ground arith
strlen_loop_lem (suc k) string result p m (x ∷ xs) e s h =
    ground (arith, strlen_loop_lem k string (result + 1) (p + 1) m xs (omega arith) s.2)

-- `strlen` is the number of bytes before the terminating zero, on fuel above that number.
pub strlen-length :
    (fuel p : ℕ) (m : Memory) (xs : List ℕ)
    → IsString m p xs
    → length xs < fuel
    → strlen fuel p m ≡ some (length xs)
unfolding strlen
strlen-length fuel p m xs s h = ground (arith, strlen_loop_lem fuel p 0 p m xs (omega arith) s h)

lex-zero_iff : (xs ys : List ℕ) → (lex xs ys ≡ pos 0) ↔ (xs ≡ ys)
lex-zero_iff [] [] = (λ h. refl, λ h. refl)
lex-zero_iff [] (y ∷ ys) = (λ h. cc, λ h. cc)
lex-zero_iff (x ∷ xs) [] = (λ h. cc, λ h. cc)
lex-zero_iff (x ∷ xs) (y ∷ ys) =
    (λ h. ground (arith, (lex-zero_iff xs ys).0), λ h. ground (arith, (lex-zero_iff xs ys).1))

strcmp_lem :
    (k p q : ℕ) (m : Memory) (xs ys : List ℕ)
    → IsString m p xs
    → IsString m q ys
    → length xs < k
    → strcmp k p q m ≡ some (lex xs ys)
unfolding strcmp
strcmp_lem zero p q m xs ys s t h = elim h [ ]
strcmp_lem (suc k) p q m [] [] s t h = ground arith
strcmp_lem (suc k) p q m [] (y ∷ ys) s t h = ground arith
strcmp_lem (suc k) p q m (x ∷ xs) [] s t h = ground arith
strcmp_lem (suc k) p q m (x ∷ xs) (y ∷ ys) s t h =
    ground (arith, strcmp_lem k (p + 1) (q + 1) m xs ys s.2 t.2)

-- `strcmp` is the lexicographic order of the two strings, and is 0 exactly for equal strings.
pub strcmp-lex :
    (fuel p q : ℕ) (m : Memory) (xs ys : List ℕ)
    → IsString m p xs
    → IsString m q ys
    → length xs < fuel
    → (strcmp fuel p q m ≡ some (lex xs ys)) × ((lex xs ys ≡ pos 0) ↔ (xs ≡ ys))
strcmp-lex fuel p q m xs ys s t h = (strcmp_lem fuel p q m xs ys s t h, lex-zero_iff xs ys)
