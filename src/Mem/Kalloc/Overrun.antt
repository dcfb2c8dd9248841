-- ===== src/Mem/Kalloc/Overrun.antt =====
-- Blocks whose data starts a page, and the size that a caller can read back.
use ogos.Prelude.{ℕ, suc, ◌+◌, ◌^◌, ◌<◌, ◌≤◌, ◌≡◌, subst, arith, List, ◌∷◌, ◌++◌, true}
use ogos.Prelude.Words.{sub32}
use ogos.Mem.Heap.{Heap, ok, load32, fits}
use ogos.Mem.Heap.Tiles.{Tile, Tiled, total, total-append, IsHeap, Tiled-behind}
use ogos.Mem.Kalloc.{kalloc}
use ogos.Mem.Kalloc.Placed.{taken}
use ogos.Mem.Kalloc.Allocated.{IsAllocated, kalloc-IsHeap}
use ogos.Mem.Freeh.{size_of_alloc}

allocated-size_of_alloc :
    (h h' : Heap) (ts ts' : List Tile) (size p : ℕ)
    → IsHeap h' ts'
    → IsAllocated h h' ts ts' size p
    → size ≤ size_of_alloc p h'
unfolding size_of_alloc
allocated-size_of_alloc h h' ts ts' size p heap r =
    let block : Tile = record { size = r.new; hole = 0 } in
    let tiled = subst (Tiled h'.memory h'.start_address) r.now heap.tiled in
    let filled = subst (λ us. h'.start_address + total us ≡ h'.end_address) r.now heap.filled in
    let rest = taken r.hole.size r.new ++ r.behind in
    let (big, flag, header, footer, more) =
      Tiled-behind h'.memory h'.start_address r.before (block ∷ rest) tiled in
    let at : sub32 p 4 ≡ h'.start_address + total r.before + 8 =
      omega (arith, r.at, r.start, filled, heap.below, total-append r.before (block ∷ rest)) in
    let value : load32 h'.memory (sub32 p 4) ≡ r.new = rw at header.size in
    omega (arith, value, r.enough, filled, heap.below, total-append r.before (block ∷ rest))

-- On a heap whose tiles are in order, with a request that is below 2^31 with its overhead and that
-- some hole of the index fits, `kalloc` with no alignment returns a block that `size_of_alloc` says has at
-- least the size that was asked for.
pub size_of_alloc-kalloc :
    (h : Heap) (ts : List Tile) (size fuel j : ℕ)
    → IsHeap h ts
    → size + 20 < 2 ^ 31
    → j < h.index.size
    → fits (size + 20) 0 h.memory (h.index.array j) ≡ true
    → (p : ℕ) × (h' : Heap) × (kalloc (suc fuel) size 0 h ≡ ok (p, h'))
      × (size ≤ size_of_alloc p h')
size_of_alloc-kalloc h ts size fuel j heap small inside fit =
    let (p, h', ts', run, heap', allocated) =
      kalloc-IsHeap h ts size fuel j heap small inside fit in
    (p, h', run, allocated-size_of_alloc h h' ts ts' size p heap' allocated)
