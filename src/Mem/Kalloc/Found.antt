-- ===== src/Mem/Kalloc/Found.antt =====
-- The search for a hole: it ends at the first item of the index that fits.
use ogos.Prelude.{
  ℕ, zero, suc, ◌+◌, ◌^◌, ◌<◌, ◌≤◌, ◌≡◌, inl, inr, refl, arith, ltb, ◌==◌, Bool-cases, true, some,
  bit_and,
}
use ogos.Prelude.Words.{add32}
use ogos.Mem.OrderedArray.{lookup_ordered_array}
use ogos.Mem.Heap.{
  Bytes, Heap, ok, heap_magic, magic_of, size_of, lookup, fits, find_hole, find_smallest_hole,
}

pub lookup_inside : (i : ℕ) (h : Heap) → i < h.index.size → lookup i h ≡ ok (h.index.array i)
unfolding lookup lookup_ordered_array
lookup_inside i h inside = let test : ltb i h.index.size ≡ true = ground arith in rw test refl

-- A hole that fits is large enough.
pub fits_room :
    (size : ℕ) (m : Bytes) (header : ℕ)
    → size < 2 ^ 31
    → size_of m header < 2 ^ 31
    → fits size 0 m header ≡ true
    → size ≤ size_of m header
unfolding fits
fits_room size m header small room h = elim (Bool-cases (bit_and (add32 header 12) 1 == 0)) [
  | inl even ↦ let h' = rw even at h in ground arith
  | inr odd ↦ let h' = rw odd at h in ground arith
]

module _ (size page_align : ℕ) (h : Heap) where
  abbrev FitsAt : ℕ → Type 0
  FitsAt j = fits size page_align h.memory (h.index.array j) ≡ true

  -- With a hole that fits at index j the loop ends at one, no further than j.
  find_hole_lem :
      (n i j : ℕ)
      → ((k : ℕ) → k < h.index.size → magic_of h.memory (h.index.array k) ≡ heap_magic)
      → i + n ≤ h.index.size
      → i ≤ j
      → j < i + n
      → FitsAt j
      → (k : ℕ) × (find_hole n i size page_align h ≡ ok (some k)) × (k ≤ j) × FitsAt k
  unfolding find_hole
  find_hole_lem zero i j magic inside low high there = absurd (omega arith)
  find_hole_lem (suc n) i j magic inside low high there =
      let found = lookup_inside i h (omega arith) in
      let valid : (magic_of h.memory (h.index.array i) == heap_magic) ≡ true =
        ground (arith, magic i (omega arith)) in
      elim (Bool-cases (fits size page_align h.memory (h.index.array i))) [
        | inl here ↦ (i, rw (found, valid, here) refl, low, here)
        | inr not_here ↦
            let further : i + 1 ≤ j = elim (Bool-cases (i == j)) [
              | inl same ↦
                  let e : i ≡ j = ground arith in
                  let clash = rw e at not_here in absurd (ground (arith, clash, there))
              | inr other ↦ ground arith
            ] in
            let (k, run, le, fit) =
              find_hole_lem n (i + 1) j magic (omega arith) further (omega arith) there in
            (k, rw (found, valid, not_here) run, le, fit)
      ]

  pub find_smallest_hole-found :
      (j : ℕ)
      → ((k : ℕ) → k < h.index.size → magic_of h.memory (h.index.array k) ≡ heap_magic)
      → j < h.index.size
      → FitsAt j
      → (k : ℕ) × (find_smallest_hole size page_align h ≡ ok (some k))
        × (k < h.index.size)
        × FitsAt k
  unfolding find_smallest_hole
  find_smallest_hole-found j magic inside there =
      let (k, run, le, fit) =
        find_hole_lem h.index.size 0 j magic (omega arith) (omega arith) (omega arith) there in
      (k, run, omega arith, fit)
