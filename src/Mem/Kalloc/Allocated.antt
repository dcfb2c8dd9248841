-- ===== src/Mem/Kalloc/Allocated.antt =====
-- What a caller of `kalloc` gets.
use ogos.Prelude.{
  ℕ, suc, ◌+◌, ◌-◌, ◌^◌, ◌<◌, ◌≤◌, ◌≡◌, inl, inr, refl, ap, ap₂, sym, subst, ◌∙◌, arith, ltb, leb,
  ◌==◌, ◌&&◌, if◌then◌else◌, List, ◌∷◌, ◌++◌, Bool-cases, true, false, some,
}
use ogos.Prelude.Words.{add32, sub32}
use ogos.Mem.Heap.{
  Bytes, Heap, ok, heap_magic, magic_of, size_of, fits, insert_index, find_smallest_hole,
}
use ogos.Mem.Heap.Words.{Apart}
use ogos.Mem.Heap.Tiles.{Tile, IsHeap, total}
use ogos.Mem.Kalloc.{put_block, place_block, carve, kalloc}
use ogos.Mem.Kalloc.Placed.{taken, put_block_whole, put_block_split}
use ogos.Mem.Kalloc.Found.{lookup_inside, fits_room, find_smallest_hole-found}
use ogos.Mem.Kalloc.Carved.{
  indexed_tile, ends, tile_big, removed, whole_heap, whole-IsHeap, whole_others, split_heap,
  split_memory, split-IsHeap, split_others,
}

-- `kalloc` took a block with room for `size` bytes, whose data starts at p, out of a hole: what is left of
-- the hole is behind the block, all other tiles are as before, and so is the memory outside the hole.
pub record IsAllocated (h h' : Heap) (ts ts' : List Tile) (size p : ℕ) : Type 0 where
  pub before : List Tile
  pub behind : List Tile
  pub hole : Tile
  pub new : ℕ
  pub free : (hole.hole == 0) ≡ false
  pub was : ts ≡ before ++ hole ∷ behind
  pub now : ts' ≡ before ++ (record { size = new; hole = 0 }) ∷ (taken hole.size new ++ behind)
  pub at : p ≡ h.start_address + total before + 12
  pub enough : size + 20 ≤ new
  pub inside : new ≤ hole.size
  pub start : h'.start_address ≡ h.start_address
  pub end : h'.end_address ≡ h.end_address
  pub kept :
      (b : ℕ)
      → h'.memory b
        ≡ (if leb (p - 12) b && ltb b (p - 12 + hole.size) then h'.memory b else h.memory b)

kept-Apart :
    (m m' : Bytes) (a n p b : ℕ)
    → p ≡ a + 12
    → (Apart a n b → m' b ≡ m b)
    → m' b ≡ (if leb (p - 12) b && ltb b (p - 12 + n) then m' b else m b)
kept-Apart m m' a n p b e same =
    let e' : p - 12 ≡ a = omega arith in
    elim (Bool-cases (leb a b && ltb b (a + n))) [
      | inl inside ↦ rw (e', inside) refl
      | inr outside ↦ rw (e', outside) (same (ground arith))
    ]

module _ (h : Heap) (xs ys : List Tile) (t : Tile) (k : ℕ) (heap : IsHeap h (xs ++ t ∷ ys))
    (inside : k < h.index.size) (at : h.index.array k ≡ h.start_address + total xs)
    (free : (t.hole == 0) ≡ false) (size : ℕ) where
  abbrev p : ℕ
  p = h.start_address + total xs + 12

  abbrev base : ℕ
  base = h.start_address + total xs

  abbrev whole : Heap
  whole = whole_heap h xs ys t k heap inside at free

  low : base + t.size < 2 ^ 31
  low = omega (arith, ends h xs ys t k heap inside at free, heap.below)

  start : add32 base 12 ≡ p
  start = omega (arith, low, tile_big h xs ys t k heap inside at free)

  placed_whole :
      (size' : ℕ) → size' + 20 ≡ t.size → place_block k base t.size size' t.size 0 h ≡ (p, whole)
  unfolding place_block
  placed_whole size' e =
      ap₂ (λ a h'. (a, h')) start
        (ap (put_block base t.size size' t.size) (removed h xs ys t k heap inside at free)
          ∙ put_block_whole base t.size size' _ e low)

  module _ (new : ℕ) (e : size + 20 ≡ new) where
    placed_split :
        (left : new + 20 ≤ t.size)
        → place_block k base t.size size new 0 h
          ≡ (p, split_heap h xs ys t k heap inside at free new (omega arith) left)
    unfolding place_block
    placed_split left =
        ap₂ (λ a h'. (a, h')) start
          (ap (put_block base t.size size new) (removed h xs ys t k heap inside at free)
            ∙ put_block_split base t.size size new _ e left low
                (omega (arith, ends h xs ys t k heap inside at free)))

    whole_Allocated :
        new ≤ t.size
        → t.size < new + 20
        → IsAllocated h whole
            (xs ++ t ∷ ys)
            (xs ++ (record { size = t.size; hole = 0 }) ∷ ys)
            size
            p
    whole_Allocated room tight =
        let none_left : (t.size == t.size) ≡ true = ground arith in
        record {
          before = xs;
          behind = ys;
          hole = t;
          new = t.size;
          free = free;
          was = refl;
          now = rw none_left refl;
          at = refl;
          enough = omega arith;
          inside = omega arith;
          start = refl;
          end = refl;
          kept = λ b.
              kept-Apart h.memory whole.memory base t.size p b refl
                (whole_others h xs ys t k heap inside at free b);
        }

    split_Allocated :
        (left : new + 20 ≤ t.size)
        → IsAllocated h
            (split_heap h xs ys t k heap inside at free new (omega arith) left)
            (xs ++ t ∷ ys)
            (xs
              ++ (record { size = new; hole = 0 })
                ∷ (record { size = t.size - new; hole = 1 })
                ∷ ys)
            size
            p
    unfolding insert_index
    split_Allocated left =
        let some_left : (t.size == new) ≡ false = ground arith in
        record {
          before = xs;
          behind = ys;
          hole = t;
          new = new;
          free = free;
          was = refl;
          now = rw some_left refl;
          at = refl;
          enough = omega arith;
          inside = omega arith;
          start = refl;
          end = refl;
          kept = λ b.
              kept-Apart h.memory
                (split_memory h xs ys t k heap inside at free new (omega arith) left) base t.size p
                b refl (split_others h xs ys t k heap inside at free new (omega arith) left b);
        }

    carve_lem :
        size_of h.memory base ≡ t.size
        → new ≤ t.size
        → (h' : Heap) × (ts' : List Tile) × (carve k size new 0 h ≡ ok (p, h'))
          × IsHeap h' ts'
          × IsAllocated h h' (xs ++ t ∷ ys) ts' size p
    unfolding carve
    carve_lem room_is room =
        let found = lookup_inside k h inside in
        let left_over : sub32 t.size new ≡ t.size - new = omega (arith, low) in
        elim (Bool-cases (ltb (t.size - new) 20)) [
          | inl tight ↦
              let all : add32 size (t.size - new) + 20 ≡ t.size = omega (arith, low) in
              (
                whole,
                xs ++ (record { size = t.size; hole = 0 }) ∷ ys,
                rw (found, at, room_is, left_over, tight)
                    (ap ok (placed_whole (add32 size (t.size - new)) all)),
                whole-IsHeap h xs ys t k heap inside at free,
                whole_Allocated room (ground arith),
              )
          | inr loose ↦
              let left : new + 20 ≤ t.size = ground arith in
              (
                split_heap h xs ys t k heap inside at free new (omega arith) left,
                xs
                    ++ (record { size = new; hole = 0 })
                      ∷ (record { size = t.size - new; hole = 1 })
                      ∷ ys,
                rw (found, at, room_is, left_over, loose) (ap ok (placed_split left)),
                split-IsHeap h xs ys t k heap inside at free new (omega arith) left,
                split_Allocated left,
              )
        ]

kalloc_found :
    (size fuel k : ℕ) (h : Heap) (r : ℕ × Heap)
    → size + 20 < 2 ^ 31
    → find_smallest_hole (size + 20) 0 h ≡ ok (some k)
    → carve k size (size + 20) 0 h ≡ ok r
    → kalloc (suc fuel) size 0 h ≡ ok r
unfolding kalloc
kalloc_found size fuel k h r small run carved =
    let no_wrap : add32 size 20 ≡ size + 20 = omega arith in rw (no_wrap, run, no_wrap) carved

-- On a heap whose tiles are in order, with a request that is below 2^31 with its overhead and that
-- some hole of the index fits, `kalloc` with no alignment returns a block out of a hole. The block has room
-- for the request, and the tiles are in order again, with the index holding just the holes.
pub kalloc-IsHeap :
    (h : Heap) (ts : List Tile) (size fuel j : ℕ)
    → IsHeap h ts
    → size + 20 < 2 ^ 31
    → j < h.index.size
    → fits (size + 20) 0 h.memory (h.index.array j) ≡ true
    → (p : ℕ) × (h' : Heap) × (ts' : List Tile) × (kalloc (suc fuel) size 0 h ≡ ok (p, h'))
      × IsHeap h' ts'
      × IsAllocated h h' ts ts' size p
kalloc-IsHeap h ts size fuel j heap small inside fit =
    let magic : (k : ℕ) → k < h.index.size → magic_of h.memory (h.index.array k) ≡ heap_magic =
      λ k below. (indexed_tile h ts k heap below).1.magic in
    let (k, run, inside', fit') = find_smallest_hole-found (size + 20) 0 h j magic inside fit in
    let (r, header) = indexed_tile h ts k heap inside' in
    let heap' = subst (IsHeap h) r.all heap in
    let low = low h r.before r.behind r.tile k heap' inside' r.at r.free size in
    let room =
      fits_room (size + 20) h.memory (h.index.array k) small (omega (arith, header.size, low))
        fit' in
    let room_is = subst (λ a. size_of h.memory a ≡ r.tile.size) r.at header.size in
    let (h', ts', carved, heap'', allocated) =
      carve_lem h r.before r.behind r.tile k heap' inside' r.at r.free size (size + 20) refl room_is
        (omega (arith, room, header.size)) in
    (
      _,
      h',
      ts',
      kalloc_found size fuel k h _ small run carved,
      heap'',
      subst (λ us. IsAllocated h h' us ts' size (h.start_address + total r.before + 12)) (sym r.all)
          allocated,
    )
