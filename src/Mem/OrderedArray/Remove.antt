-- ===== src/Mem/OrderedArray/Remove.antt =====
-- `remove_ordered_array` against the list of items.
use ogos.Prelude.{
  ℕ, zero, suc, ◌+◌, ◌-◌, ◌<◌, ◌≤◌, ◌^◌, ◌≡◌, refl, sym, ap, ap₂, ◌∙◌, List, [], ◌∷◌, ◌&&◌, arith,
  ltb, leb, if◌then◌else◌, take,
}
use ogos.Prelude.Words.{sub32}
use ogos.Mem.OrderedArray.{OrderedArray, write, shift_down, remove_ordered_array}
use ogos.Mem.OrderedArray.Contents.{items, contents, items_shift}

-- the list without its item at index i
abbrev pub remove_at : ℕ → List ℕ → List ℕ
remove_at i [] = []
remove_at zero (x ∷ xs) = xs
remove_at (suc i) (x ∷ xs) = x ∷ remove_at i xs

shift_down_lem :
    (n i : ℕ) (array : ℕ → ℕ) (j : ℕ)
    → shift_down n i array j ≡ (if leb i j && ltb j (i + n) then array (j + 1) else array j)
unfolding shift_down
shift_down_lem zero i array j = ground arith
shift_down_lem (suc n) i array j =
    shift_down_lem n (i + 1) (write array i (array (i + 1))) j ∙ ground arith

-- g skips the item at index k of the n + 1 items from index i on
items-remove :
    (n i k : ℕ) (f g : ℕ → ℕ)
    → k ≤ n
    → ((j : ℕ) → i ≤ j → j < i + k → g j ≡ f j)
    → ((j : ℕ) → i + k ≤ j → j < i + n → g j ≡ f (j + 1))
    → items g i n ≡ remove_at k (items f i (suc n))
items-remove n i zero f g h before behind =
    sym (items_shift n i g f (λ j a b. sym (behind j (omega arith) b)))
items-remove zero i (suc k) f g h before behind = elim h [ ]
items-remove (suc n) i (suc k) f g h before behind =
    ap₂ ◌∷◌ (before i (omega arith) (omega arith)) (
      items-remove n (i + 1) k f g (omega arith) (λ j a b. before j (omega arith) (omega arith))
        (λ j a b. behind j (omega arith) (omega arith)))

items-take :
    (n i : ℕ) (f g : ℕ → ℕ)
    → ((j : ℕ) → i ≤ j → j < i + n → g j ≡ f j)
    → items g i n ≡ take n (items f i (suc n))
items-take zero i f g h = refl
items-take (suc n) i f g h =
    ap₂ ◌∷◌ (h i (omega arith) (omega arith))
      (items-take n (i + 1) f g (λ j a b. h j (omega arith) (omega arith)))

removed :
    (n i : ℕ) (array : ℕ → ℕ)
    → i < n
    → items (shift_down (n - i) i array) 0 (n - 1) ≡ remove_at i (items array 0 n)
removed zero i array h = elim h [ ]
removed (suc n) i array h =
    let e : suc n - 1 ≡ n = omega arith in
    rw e (
      items-remove n 0 i array _ (omega arith)
        (λ j a b. ground (arith, shift_down_lem (suc n - i) i array j))
        (λ j a b. ground (arith, shift_down_lem (suc n - i) i array j)))

removed_last :
    (n i : ℕ) (array : ℕ → ℕ)
    → n ≤ i
    → 0 < n
    → items (shift_down (n - i) i array) 0 (n - 1) ≡ take (n - 1) (items array 0 n)
removed_last zero i array h positive = elim positive [ ]
removed_last (suc n) i array h positive =
    let e : suc n - 1 ≡ n = omega arith in
    let none_left : suc n - i ≡ 0 = omega arith in
    rw (e, none_left) (items-take n 0 array _ (λ j a b. ground (arith, shift_down_lem 0 i array j)))

module _ (i : ℕ) (a : OrderedArray) (magic : ℕ → ℕ) where
  -- `remove_ordered_array` at an index below the size takes that item out, clears the magic number of
  -- its header, and keeps the other items in their order.
  pub contents-remove :
      i < a.size
      → a.size < 2 ^ 32
      → (contents (remove_ordered_array i a magic).0 ≡ remove_at i (contents a))
        × ((remove_ordered_array i a magic).1 ≡ write magic (a.array i) 0)
  unfolding remove_ordered_array
  contents-remove h small =
      let e : sub32 a.size 1 ≡ a.size - 1 = omega arith in
      (ap (items _ 0) e ∙ removed a.size i a.array h, refl)

  -- `remove_ordered_array` at an index at or past the size of an array with items takes the last item
  -- out.
  pub contents-remove_outside :
      a.size ≤ i
      → 0 < a.size
      → a.size < 2 ^ 32
      → contents (remove_ordered_array i a magic).0 ≡ take (a.size - 1) (contents a)
  unfolding remove_ordered_array
  contents-remove_outside h positive small =
      let e : sub32 a.size 1 ≡ a.size - 1 = omega arith in
      ap (items _ 0) e ∙ removed_last a.size i a.array h positive
