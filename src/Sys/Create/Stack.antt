-- ===== src/Sys/Create/Stack.antt =====
-- The words that a new stack starts with.
use ogos.Prelude.{
  ℕ, zero, suc, ◌+◌, ◌-◌, ◌*◌, ◌^◌, ◌<◌, ◌≤◌, ◌≡◌, refl, ap, ap₂, ◌∙◌, false, List, [], ◌∷◌, arith,
  ◌==◌, if◌then◌else◌, length,
}
use ogos.Prelude.Words.{sub32}
use ogos.Sys.Create.{push, push_all}

-- n words of the memory from an address on
abbrev pub words_at : (ℕ → ℕ) → ℕ → ℕ → List ℕ
words_at memory a zero = []
words_at memory a (suc n) = memory a ∷ words_at memory (a + 4) n

-- the words in the opposite order, before others
abbrev pub onto : List ℕ → List ℕ → List ℕ
onto [] ws = ws
onto (v ∷ vs) ws = onto vs (v ∷ ws)

words_at-above :
    (n a b w : ℕ) (memory : ℕ → ℕ)
    → b < a
    → words_at (λ c. if b == c then w else memory c) a n ≡ words_at memory a n
words_at-above zero a b w memory h = refl
words_at-above (suc n) a b w memory h =
    let here : (b == a) ≡ false = ground arith in
    rw (here, words_at-above n (a + 4) b w memory (omega arith)) refl

-- Pushed words stand at the stack pointer, the last one first, and the words above stay.
pub push_all-words :
    (ws : List ℕ) (sp n : ℕ) (memory : ℕ → ℕ)
    → 4 * length ws ≤ sp
    → sp < 2 ^ 32
    → (words_at (push_all ws (sp, memory)).1 (push_all ws (sp, memory)).0 (length ws + n)
        ≡ onto ws (words_at memory sp n))
      × ((push_all ws (sp, memory)).0 ≡ sp - 4 * length ws)
unfolding push_all push
push_all-words [] sp n memory h b = (ap (λ i. words_at memory sp i) (omega arith), omega arith)
push_all-words (w ∷ ws) sp n memory h b =
    let low : sub32 sp 4 ≡ sp - 4 = omega arith in
    let m : ℕ → ℕ = λ a. if sub32 sp 4 == a then w else memory a in
    let (found, down) = push_all-words ws (sub32 sp 4) (suc n) m (omega arith) (omega arith) in
    let count : suc (length ws) + n ≡ length ws + suc n = omega arith in
    let here : m (sub32 sp 4) ≡ w = ground arith in
    let up : sub32 sp 4 + 4 ≡ sp = omega arith in
    let rest : words_at m (sub32 sp 4 + 4) n ≡ words_at memory sp n =
      ap (λ a. words_at m a n) up ∙ words_at-above n sp (sub32 sp 4) w memory (omega arith) in
    (rw count found ∙ ap₂ (λ a l. onto ws (a ∷ l)) here rest, down ∙ omega arith)
