-- ===== src/Mem/OrderedArray/Contents.antt =====
-- The list that an array stands for.
use ogos.Prelude.{ℕ, zero, suc, ◌+◌, ◌<◌, ◌≤◌, ◌≡◌, refl, ap₂, List, [], ◌∷◌, arith}
use ogos.Mem.OrderedArray.{OrderedArray}

-- the n items from index i on
abbrev pub items : (ℕ → ℕ) → ℕ → ℕ → List ℕ
items array i zero = []
items array i (suc n) = array i ∷ items array (i + 1) n

abbrev pub contents : OrderedArray → List ℕ
contents a = items a.array 0 a.size

-- Two memories that agree on the indices give the same items.
pub items_ext :
    (n i : ℕ) (f g : ℕ → ℕ) → ((j : ℕ) → i ≤ j → j < i + n → f j ≡ g j) → items f i n ≡ items g i n
items_ext zero i f g h = refl
items_ext (suc n) i f g h =
    ap₂ ◌∷◌ (h i (omega arith) (omega arith))
      (items_ext n (i + 1) f g (λ j p q. h j (omega arith) (omega arith)))

-- Items read one index further on.
pub items_shift :
    (n i : ℕ) (f g : ℕ → ℕ)
    → ((j : ℕ) → i ≤ j → j < i + n → g (j + 1) ≡ f j)
    → items g (i + 1) n ≡ items f i n
items_shift zero i f g h = refl
items_shift (suc n) i f g h =
    ap₂ ◌∷◌ (h i (omega arith) (omega arith))
      (items_shift n (i + 1) f g (λ j p q. h j (omega arith) (omega arith)))
