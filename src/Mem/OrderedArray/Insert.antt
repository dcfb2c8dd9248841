-- ===== src/Mem/OrderedArray/Insert.antt =====
-- `insert_ordered_array` is insertion into a sorted list.
use ogos.Prelude.{
  ℕ, zero, suc, ◌+◌, ◌-◌, ◌<◌, ◌≤◌, ◌^◌, ◌≡◌, ap, ap₂, ◌∙◌, inl, inr, List, [], ◌∷◌, Bool, true,
  false, ◌||◌, arith, ltb, leb, ◌==◌, if◌then◌else◌, Bool-cases,
}
use mathlib.Core.List.{Perm}
use mathlib.Core.List.Perm
use ogos.Mem.OrderedArray.{OrderedArray, write, find_place, shift_up, insert_ordered_array}
use ogos.Mem.OrderedArray.Contents.{items, contents, items_shift}

module _ (less_than : ℕ → ℕ → Bool) where
  abbrev pub insert : ℕ → List ℕ → List ℕ
  insert item [] = item ∷ []
  insert item (x ∷ xs) = if less_than x item then x ∷ insert item xs else item ∷ x ∷ xs

  -- No item is less than the one before it.
  abbrev pub Sorted : List ℕ → Type 0
  Sorted [] = Unit
  Sorted (x ∷ []) = Unit
  Sorted (x ∷ y ∷ ys) = (less_than y x ≡ false) × Sorted (y ∷ ys)

shift_up_lem :
    (n i tmp : ℕ) (array : ℕ → ℕ) (j : ℕ)
    → shift_up n i tmp array j
      ≡ (if leb j i || ltb (i + n) j then array j else if j == i + 1 then tmp else array (j - 1))
unfolding shift_up
shift_up_lem zero i tmp array j = ground arith
shift_up_lem (suc n) i tmp array j =
    shift_up_lem n (i + 1) (array (i + 1)) (write array (i + 1) tmp) j ∙ ground arith

module _ (less_than : ℕ → ℕ → Bool) (item : ℕ) (array : ℕ → ℕ) where
  find_place_bounds :
      (n i : ℕ)
      → (i ≤ find_place less_than item n i array) × (find_place less_than item n i array ≤ i + n)
  unfolding find_place
  find_place_bounds zero i = omega arith
  find_place_bounds (suc n) i = ground (arith, find_place_bounds n (i + 1))

  -- g is the array with the item put in at its place.
  record Placed (n i p : ℕ) (g : ℕ → ℕ) : Type 0 where
    before : (j : ℕ) → i ≤ j → j < p → g j ≡ array j
    at : g p ≡ item
    behind : (j : ℕ) → p ≤ j → j < i + n → g (j + 1) ≡ array j

  items-insert :
      (n i : ℕ) (g : ℕ → ℕ)
      → Placed n i (find_place less_than item n i array) g
      → items g i (suc n) ≡ insert less_than item (items array i n)
  unfolding find_place
  items-insert zero i g p = ap (λ x. x ∷ []) p.at
  items-insert (suc n) i g p = elim (Bool-cases (less_than (array i) item)) [
    | inl lt ↦
        let q = rw lt at p in
        rw lt (
          ap₂ ◌∷◌ (q.before i (omega arith) (omega (arith, find_place_bounds n (i + 1)))) (
            items-insert n (i + 1) g (record {
              before = λ j a b. q.before j (omega arith) b;
              at = q.at;
              behind = λ j a b. q.behind j a (omega arith);
            })))
    | inr ge ↦ let q = rw ge at p in rw ge (ap₂ ◌∷◌ q.at (items_shift (suc n) i array g q.behind))
  ]

  Placed-shift_up :
      (n p : ℕ) → p ≤ n → Placed n 0 p (shift_up (n - p) p (array p) (write array p item))
  Placed-shift_up n p h = record {
    before = λ j a b. ground (arith, shift_up_lem (n - p) p (array p) (write array p item) j);
    at = ground (arith, shift_up_lem (n - p) p (array p) (write array p item) p);
    behind = λ j a b. ground (arith, shift_up_lem (n - p) p (array p) (write array p item) (j + 1));
  }

  Placed-write : (n p : ℕ) → (p == n) ≡ true → Placed n 0 p (write array n item)
  Placed-write n p h = record {
    before = λ j a b. ground arith;
    at = ground arith;
    behind = λ j a b. absurd (ground arith);
  }

module _ (less_than : ℕ → ℕ → Bool) (item : ℕ) (a : OrderedArray) where
  inserted_Placed :
      Placed less_than item a.array a.size 0
        (find_place less_than item a.size 0 a.array)
        (insert_ordered_array less_than item a).array
  unfolding insert_ordered_array
  inserted_Placed =
      let p = find_place less_than item a.size 0 a.array in
      elim (Bool-cases (p == a.size)) [
        | inl end ↦ rw end (Placed-write less_than item a.array a.size p end)
        | inr mid ↦ rw mid (
            Placed-shift_up less_than item a.array a.size p
              (omega (arith, find_place_bounds less_than item a.array a.size 0)))
      ]

  pub size-insert : a.size + 1 < 2 ^ 32 → (insert_ordered_array less_than item a).size ≡ suc a.size
  unfolding insert_ordered_array
  size-insert h = ground arith

  -- Below 2^32 - 1 items, `insert_ordered_array` is insertion before the first item that is not less.
  pub contents-insert :
      a.size + 1 < 2 ^ 32
      → contents (insert_ordered_array less_than item a) ≡ insert less_than item (contents a)
  contents-insert h =
      rw (size-insert h) (items-insert less_than item a.array a.size 0 _ inserted_Placed)

module _ (less_than : ℕ → ℕ → Bool)
    (asym : (x y : ℕ) → less_than x y ≡ true → less_than y x ≡ false) where
  insert-Sorted :
      (item : ℕ) (xs : List ℕ) → Sorted less_than xs → Sorted less_than (insert less_than item xs)
  insert-Sorted item [] s = tt
  insert-Sorted item (x ∷ []) s = ground (arith, asym x item)
  insert-Sorted item (x ∷ y ∷ ys) s =
      ground (arith, asym x item, asym y item, insert-Sorted item (y ∷ ys) s.1)

perm-insert :
    (less_than : ℕ → ℕ → Bool) (item : ℕ) (xs : List ℕ)
    → Perm (insert less_than item xs) (item ∷ xs)
perm-insert less_than item [] = Perm.refl _
perm-insert less_than item (x ∷ xs) = elim (Bool-cases (less_than x item)) [
  | inl lt ↦ rw lt (Perm.trans (Perm.cons x (perm-insert less_than item xs)) (Perm.swap _ _ _))
  | inr ge ↦ rw ge (Perm.refl _)
]

-- `insert_ordered_array` adds the item to the items of the array, keeps the array sorted by an
-- asymmetric predicate, and puts the item before the first one that is not less. The number of
-- items stays below 2^32.
pub insert-sorts :
    (less_than : ℕ → ℕ → Bool) (item : ℕ) (a : OrderedArray)
    → ((x y : ℕ) → less_than x y ≡ true → less_than y x ≡ false)
    → a.size + 1 < 2 ^ 32
    → Sorted less_than (contents a)
    → let a' = insert_ordered_array less_than item a in
      (contents a' ≡ insert less_than item (contents a))
      × Sorted less_than (contents a')
      × Perm (contents a') (item ∷ contents a)
insert-sorts less_than item a asym h s =
    let e = contents-insert less_than item a h in
    (
      e,
      rw e (insert-Sorted less_than asym item (contents a) s),
      rw e (perm-insert less_than item (contents a)),
    )
