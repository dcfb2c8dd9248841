-- ===== src/Mem/Kmalloc/Placement.antt =====
-- Memory before there is a heap.
use ogos.Prelude.{
  ℕ, ◌+◌, ◌%◌, ◌^◌, ◌<◌, ◌≤◌, ◌≡◌, refl, ap, arith, false, ◌&&◌, leb, ◌==◌, if◌then◌else◌, List, [],
  ◌∷◌,
}
use ogos.Prelude.Words.{add32}
use ogos.Prelude.Bits.{bit_and-page}
use ogos.Mem.Heap.{Outcome, ok, ◌>>=◌}
use ogos.Mem.Kmalloc.{Kmem, align_placement, take_placement, from_heap, kmalloc_int}

align_bounds :
    (align placement : ℕ)
    → placement + 0x1000 < 2 ^ 32
    → (placement ≤ align_placement align placement)
      × (align_placement align placement ≤ placement + 0x1000)
      × (if (align == 1) && leb 0x1000 placement
          then align_placement align placement % 0x1000
          else 0)
        ≡ 0
unfolding align_placement
align_bounds align placement low = ground (arith, bit_and-page placement (omega arith))

-- a request, its size and its alignment
abbrev pub total : List (ℕ × ℕ) → ℕ
total [] = 0
total ((sz, align) ∷ rs) = sz + 0x1000 + total rs

module _ (frame_of : ℕ → ℕ) (fuel : ℕ) where
  -- the addresses that a sequence of requests gets
  abbrev pub serve : List (ℕ × ℕ) → Kmem → Outcome (List ℕ)
  serve [] k = ok []
  serve ((sz, align) ∷ rs) k = do
    (given, k1) ← kmalloc_int frame_of fuel sz align k
    addrs ← serve rs k1
    ok (given.addr ∷ addrs)

-- The areas stand one behind the other from p on, and those that want it start a page.
abbrev pub Laid : ℕ → List (ℕ × ℕ) → List ℕ → Type 0
Laid p [] [] = Unit
Laid p [] (a ∷ addrs) = ⊥
Laid p ((sz, align) ∷ rs) [] = ⊥
Laid p ((sz, align) ∷ rs) (a ∷ addrs) =
    (p ≤ a)
    × ((if (align == 1) && leb 0x1000 p then a % 0x1000 else 0) ≡ 0)
    × Laid (a + sz) rs addrs

before_heap :
    (frame_of : ℕ → ℕ) (fuel sz align : ℕ) (k : Kmem)
    → k.has_heap ≡ false
    → kmalloc_int frame_of fuel sz align k ≡ ok (take_placement sz align k)
unfolding kmalloc_int
before_heap frame_of fuel sz align k none_yet =
    ap (λ b. if b then from_heap frame_of fuel sz align k else ok (take_placement sz align k))
      none_yet

-- While there is no heap, every sequence of requests that stays below 2^32, a page for each one added, is
-- served with areas that do not overlap, from the placement address on, and those that ask for it
-- start a page, if the placement address is not in the first page.
pub kmalloc_int-Laid :
    (frame_of : ℕ → ℕ) (fuel : ℕ) (rs : List (ℕ × ℕ)) (k : Kmem)
    → k.has_heap ≡ false
    → k.placement_address + total rs < 2 ^ 32
    → (addrs : List ℕ) × (serve frame_of fuel rs k ≡ ok addrs) × Laid k.placement_address rs addrs
unfolding take_placement
kmalloc_int-Laid frame_of fuel [] k none_yet low = ([], refl, tt)
kmalloc_int-Laid frame_of fuel ((sz, align) ∷ rs) k none_yet low =
    let a = align_placement align k.placement_address in
    let (above, near, page) = align_bounds align k.placement_address (omega arith) in
    let next : add32 a sz ≡ a + sz = omega arith in
    let k1 = (take_placement sz align k).1 in
    let (addrs, run, laid) = kmalloc_int-Laid frame_of fuel rs k1 none_yet (omega (arith, next)) in
    (
      a ∷ addrs,
      rw (before_heap frame_of fuel sz align k none_yet, run) refl,
      (above, page, rw next at laid),
    )
