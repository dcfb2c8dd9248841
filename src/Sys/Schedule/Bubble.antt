-- ===== src/Sys/Schedule/Bubble.antt =====
-- Passes over lists that swap neighbours of rising keys, and what they sort.
use mathlib.Core.List.{Perm, append-nil, head-eq_of_cons-eq, tail-eq_of_cons-eq}
use mathlib.Core.List.Perm
use ogos.Prelude.{
  ℕ, suc, ◌≤◌, ◌≡◌, refl, ap, ap₂, sym, subst, ◌∙◌, Bool, true, false, ◌||◌, List, [], ◌∷◌, ◌++◌,
  arith, ltb, if◌then◌else◌, length, length-append, Bool-cases, inl, inr,
}

module _ (key : ℕ → ℕ) where
  -- which of two neighbours a pass leaves in front, and which it carries on
  abbrev pub ahead : ℕ → ℕ → ℕ
  ahead p c = if ltb (key p) (key c) then c else p

  abbrev pub carried : ℕ → ℕ → ℕ
  carried p c = if ltb (key p) (key c) then p else c

  -- the list that a pass makes of p and the tasks behind it, and whether it swaps any
  abbrev pub bubble : ℕ → List ℕ → List ℕ
  bubble p [] = p ∷ []
  bubble p (c ∷ zs) = ahead p c ∷ bubble (carried p c) zs

  abbrev pub swaps : ℕ → List ℕ → Bool
  swaps p [] = false
  swaps p (c ∷ zs) = ltb (key p) (key c) || swaps (carried p c) zs

  -- No key is greater than the one before it.
  abbrev pub Descending : List ℕ → Type 0
  Descending [] = Unit
  Descending (x ∷ []) = Unit
  Descending (x ∷ y ∷ ys) = (key y ≤ key x) × Descending (y ∷ ys)

  -- every key is at least m
  abbrev AllFrom : ℕ → List ℕ → Type 0
  AllFrom m [] = Unit
  AllFrom m (x ∷ xs) = (m ≤ key x) × AllFrom m xs

  -- every key of the first list is at least each of the second, whose keys fall
  abbrev Above : List ℕ → List ℕ → Type 0
  Above xs [] = Unit
  Above xs (b ∷ bs) = AllFrom (key b) xs

  pub swaps-false :
      (p : ℕ) (zs : List ℕ) → swaps p zs ≡ false → (bubble p zs ≡ p ∷ zs) × Descending (p ∷ zs)
  swaps-false p [] e = (refl, tt)
  swaps-false p (c ∷ zs) e =
      let level : ltb (key p) (key c) ≡ false = ground arith in
      let e' : swaps c zs ≡ false = rw level at e in
      let (same, falls) = swaps-false c zs e' in
      (rw level (ap (λ l. p ∷ l) same), (ground arith, falls))

  Descending-swaps : (p : ℕ) (zs : List ℕ) → Descending (p ∷ zs) → swaps p zs ≡ false
  Descending-swaps p [] d = refl
  Descending-swaps p (c ∷ zs) (le, d) =
      let level : ltb (key p) (key c) ≡ false = ground arith in rw level (Descending-swaps c zs d)

  pub bubble-Perm : (p : ℕ) (zs : List ℕ) → Perm (bubble p zs) (p ∷ zs)
  bubble-Perm p [] = Perm.refl _
  bubble-Perm p (c ∷ zs) = elim (Bool-cases (ltb (key p) (key c))) [
    | inl rise ↦ rw rise (Perm.trans (Perm.cons c (bubble-Perm p zs)) (Perm.swap _ _ _))
    | inr fall ↦ rw fall (Perm.cons p (bubble-Perm c zs))
  ]

  pub length-bubble : (p : ℕ) (zs : List ℕ) → length (bubble p zs) ≡ suc (length zs)
  length-bubble p [] = refl
  length-bubble p (c ∷ zs) = ap suc (length-bubble (carried p c) zs)

  -- The last j items are in their places.
  abbrev pub Settled : ℕ → List ℕ → Type 0
  Settled j xs =
      (front : List ℕ) × (back : List ℕ) × (xs ≡ front ++ back)
      × (length back ≡ j)
      × Descending back
      × Above front back

  Descending-cons :
      (p : ℕ) (back : List ℕ) → Descending back → Above (p ∷ []) back → Descending (p ∷ back)
  Descending-cons p [] d above = tt
  Descending-cons p (b ∷ bs) d above = (above.0, d)

  carried-le : (p c : ℕ) → (key (carried p c) ≤ key p) × (key (carried p c) ≤ key (ahead p c))
  carried-le p c = elim (Bool-cases (ltb (key p) (key c))) [
    | inl rise ↦ rw rise (omega arith, ground arith)
    | inr fall ↦ rw fall (ground arith, ground arith)
  ]

  Above-carried :
      (p c : ℕ) (fs back : List ℕ) → Above (p ∷ c ∷ fs) back → Above (carried p c ∷ fs) back
  Above-carried p c fs [] above = tt
  Above-carried p c fs (b ∷ bs) (le_p, (le_c, rest)) = elim (Bool-cases (ltb (key p) (key c))) [
    | inl rise ↦ rw rise (le_p, rest)
    | inr fall ↦ rw fall (le_c, rest)
  ]

  -- A pass carries a least item of the front to its end.
  bubble-front :
      (p : ℕ) (fs back : List ℕ)
      → Descending back
      → Above (p ∷ fs) back
      → (init : List ℕ) × (m : ℕ) × (bubble p (fs ++ back) ≡ init ++ m ∷ back)
        × (key m ≤ key p)
        × AllFrom (key m) init
        × Descending (m ∷ back)
  bubble-front p [] back d above =
      let d' = Descending-cons p back d above in
      ([], p, (swaps-false p back (Descending-swaps p back d')).0, omega arith, tt, d')
  bubble-front p (f ∷ fs) back d above =
      let (init, m, run, least, all, d') =
        bubble-front (carried p f) fs back d (Above-carried p f fs back above) in
      let (le_p, le_ahead) = carried-le p f in
      (ahead p f ∷ init, m, ap (λ l. ahead p f ∷ l) run, omega arith, (omega arith, all), d')

  pub bubble-Settled :
      (j p : ℕ) (zs : List ℕ)
      → Settled j (p ∷ zs)
      → swaps p zs ≡ true
      → Settled (suc j) (bubble p zs)
  bubble-Settled j p zs ([], back, whole, count, d, above) swapped =
      let none_swapped = Descending-swaps p zs (subst Descending (sym whole) d) in cc
  bubble-Settled j p zs (f ∷ fs, back, whole, count, d, above) swapped =
      let (init, m, run, least, all, d') = bubble-front f fs back d above in
      let same : bubble p zs ≡ bubble f (fs ++ back) =
        ap₂ bubble (head-eq_of_cons-eq whole) (tail-eq_of_cons-eq whole) in
      (init, m ∷ back, same ∙ run, ap suc count, d', all)

  pub Settled-Descending : (j : ℕ) (xs : List ℕ) → Settled j xs → length xs ≤ j → Descending xs
  Settled-Descending j xs ([], back, whole, count, d, above) h = subst Descending (sym whole) d
  Settled-Descending j xs (f ∷ fs, back, whole, count, d, above) h =
      absurd (omega (arith, ap length whole, length-append (f ∷ fs) back))

  -- nothing is settled at first
  pub unsettled : (xs : List ℕ) → Settled 0 xs
  unsettled xs = (xs, [], sym (append-nil xs), refl, tt, tt)
