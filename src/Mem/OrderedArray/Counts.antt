-- ===== src/Mem/OrderedArray/Counts.antt =====
-- How often an item stands in an array, whatever the order.
use ogos.Prelude.{
  ℕ, zero, suc, ◌+◌, ◌-◌, ◌^◌, ◌<◌, ◌≤◌, ◌≡◌, refl, ap, ◌∙◌, List, [], ◌∷◌, ◌++◌, Bool, arith, ◌==◌,
  if◌then◌else◌,
}
use ogos.Mem.OrderedArray.{OrderedArray, insert_ordered_array, remove_ordered_array}
use ogos.Mem.OrderedArray.Contents.{items, contents}
use ogos.Mem.OrderedArray.Insert.{insert, contents-insert}
use ogos.Mem.OrderedArray.Remove.{remove_at, contents-remove}

abbrev pub count : ℕ → List ℕ → ℕ
count x [] = 0
count x (y ∷ ys) = (if x == y then 1 else 0) + count x ys

pub count-append : (x : ℕ) (xs ys : List ℕ) → count x (xs ++ ys) ≡ count x xs + count x ys
count-append x [] ys = omega arith
count-append x (y ∷ xs) ys = omega (arith, count-append x xs ys)

count-insert :
    (less_than : ℕ → ℕ → Bool) (x y : ℕ) (xs : List ℕ)
    → count x (insert less_than y xs) ≡ (if x == y then 1 else 0) + count x xs
count-insert less_than x y [] = refl
count-insert less_than x y (z ∷ xs) = ground (arith, count-insert less_than x y xs)

count-remove_at :
    (x i k n : ℕ) (f : ℕ → ℕ)
    → k < n
    → count x (remove_at k (items f i n)) + (if x == f (i + k) then 1 else 0)
      ≡ count x (items f i n)
count-remove_at x i k zero f h = elim h [ ]
count-remove_at x i zero (suc n) f h = let e : i + 0 ≡ i = omega arith in rw e (omega arith)
count-remove_at x i (suc k) (suc n) f h =
    let e : i + suc k ≡ i + 1 + k = omega arith in
    let rest = count-remove_at x (i + 1) k n f (omega arith) in rw e (omega (arith, rest))

pub count-items : (i j n : ℕ) (f : ℕ → ℕ) → i ≤ j → j < i + n → 1 ≤ count (f j) (items f i n)
count-items i j zero f low high = absurd (omega arith)
count-items i j (suc n) f low high = ground (arith, count-items (i + 1) j n f)

-- Insertion adds one to the count of the item.
pub count-insert_ordered_array :
    (less_than : ℕ → ℕ → Bool) (item x : ℕ) (a : OrderedArray)
    → a.size + 1 < 2 ^ 32
    → count x (contents (insert_ordered_array less_than item a))
      ≡ (if x == item then 1 else 0) + count x (contents a)
count-insert_ordered_array less_than item x a small =
    ap (count x) (contents-insert less_than item a small)
    ∙ count-insert less_than x item (contents a)

-- Removal takes one from the count of the item at the index.
pub count-remove_ordered_array :
    (i x : ℕ) (a : OrderedArray) (magic : ℕ → ℕ)
    → i < a.size
    → a.size < 2 ^ 32
    → count x (contents (remove_ordered_array i a magic).0) + (if x == a.array i then 1 else 0)
      ≡ count x (contents a)
count-remove_ordered_array i x a magic h small =
    let e : 0 + i ≡ i = omega arith in
    let same = ap (count x) (contents-remove i a magic h small).0 in
    let removed = rw e at (count-remove_at x 0 i a.size a.array h) in omega (arith, same, removed)

pub size-remove :
    (i : ℕ) (a : OrderedArray) (magic : ℕ → ℕ)
    → 1 ≤ a.size
    → a.size < 2 ^ 32
    → (remove_ordered_array i a magic).0.size ≡ a.size - 1
unfolding remove_ordered_array
size-remove i a magic h small = omega arith
