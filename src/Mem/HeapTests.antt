-- ===== src/Mem/HeapTests.antt =====
-- Examples of the theorems on the heap.
use ogos.Prelude.{ℕ, ◌<◌, ◌≡◌, refl, true, false, List, [], ◌∷◌, arith}
use ogos.Mem.Heap.{
  Bytes, Heap, ok, fits, load32, store32, store8, set_header, set_footer, contract, create_heap,
}
use ogos.Mem.Heap.Words.{Header, Footer}
use ogos.Mem.Heap.Tiles.{Tile, IsHeap, put_tile, Tiled}
use ogos.Mem.Heap.Created.{create_heap-IsHeap}
use ogos.Mem.Heap.Sizes.{contract-cuts}
use ogos.Mem.Kalloc.{kalloc}
use ogos.Mem.Kalloc.Allocated.{IsAllocated, kalloc-IsHeap}
use ogos.Mem.Freeh.{Freed, freeh}
use ogos.Mem.Freeh.Joined.{freeh-IsHeap}
use ogos.Mem.Kmalloc.{Kmem}
use ogos.Mem.Kmalloc.Placement.{serve, Laid, kmalloc_int-Laid}

abbrev no_bytes : Bytes
no_bytes a = 0

-- a block, a hole, and two blocks, from address 1000 on
abbrev tiles : List Tile
tiles =
    (record { size = 40; hole = 0 })
    ∷ (record { size = 100; hole = 1 })
    ∷ (record { size = 40; hole = 0 })
    ∷ (record { size = 40; hole = 0 })
    ∷ []

abbrev memory : Bytes
memory = put_tile 1180 0 40 (put_tile 1140 0 40 (put_tile 1040 1 100 (put_tile 1000 0 40 no_bytes)))

abbrev heap : Heap
heap = record {
  memory = memory;
  index = record { array = λ i. 1040; size = 1; max_size = 8 };
  start_address = 1000;
  end_address = 1220;
  max_address = 0x10000;
  supervisor = 0;
  readonly = 0;
  phys_mem_usage = 120;
  calls = [];
}

heap_tiled : Tiled memory 1000 tiles
unfolding load32 store32 store8 set_header set_footer
heap_tiled =
    let b1 : Header memory 1000 40 0 = record { magic = refl; flag = refl; size = refl } in
    let f1 : Footer memory 1000 40 = record { magic = refl; header = refl } in
    let b2 : Header memory 1040 100 1 = record { magic = refl; flag = refl; size = refl } in
    let f2 : Footer memory 1040 100 = record { magic = refl; header = refl } in
    let b3 : Header memory 1140 40 0 = record { magic = refl; flag = refl; size = refl } in
    let f3 : Footer memory 1140 40 = record { magic = refl; header = refl } in
    let b4 : Header memory 1180 40 0 = record { magic = refl; flag = refl; size = refl } in
    let f4 : Footer memory 1180 40 = record { magic = refl; header = refl } in
    (
      omega arith,
      omega arith,
      b1,
      f1,
      (
        omega arith,
        omega arith,
        b2,
        f2,
        (omega arith, omega arith, b3, f3, (omega arith, omega arith, b4, λ _. f4, tt)),
      ),
    )

heap-IsHeap : IsHeap heap tiles
heap-IsHeap = record {
  tiled = heap_tiled;
  filled = refl;
  indexed = λ x. refl;
  below = omega arith;
  few = omega arith;
}

-- the hole fits a request of 8 bytes
hole_fits : fits 28 0 memory 1040 ≡ true
unfolding fits load32 store32 store8 set_header set_footer
hole_fits = refl

create_heap-IsHeap_example :
    (h : Heap) × (create_heap 0 0x90000 0x100000 0 0 no_bytes (λ i. 0) 0 ≡ ok h)
    × IsHeap h ((record { size = 0x10000; hole = 1 }) ∷ [])
    × (h.start_address ≡ 0x80000)
    × (h.end_address ≡ 0x90000)
create_heap-IsHeap_example =
    create_heap-IsHeap 0 0x90000 0x100000 0 0 0 no_bytes (λ i. 0) refl refl (omega arith)
      (omega arith)

kalloc-IsHeap_example :
    (p : ℕ) × (h' : Heap) × (ts' : List Tile) × (kalloc 1 8 0 heap ≡ ok (p, h'))
    × IsHeap h' ts'
    × IsAllocated heap h' tiles ts' 8 p
kalloc-IsHeap_example =
    kalloc-IsHeap heap tiles 8 0 0 heap-IsHeap (omega arith) (omega arith) hole_fits

freeh-IsHeap_example :
    (h' : Heap) × (freeh 0 1152 heap ≡ ok h')
    × IsHeap h' (
        (record { size = 40; hole = 0 })
        ∷ (record { size = 140; hole = 1 })
        ∷ (record { size = 40; hole = 0 })
        ∷ [])
freeh-IsHeap_example =
    freeh-IsHeap heap ((record { size = 40; hole = 0 }) ∷ []) [] (record { size = 100; hole = 1 })
      (record { size = 40; hole = 0 }) 40 0 heap-IsHeap refl (omega arith)

-- the first block, on its way out
abbrev freed : Freed
freed = record { header = 1000; footer = 1032; do_add = true; heap = heap }

contract-cuts_example :
    (h' : Heap) × (contract 129 0x71000 (record heap { end_address = 0x80000; start_address = 0 })
      ≡ ok (0x70000, h'))
    × (h'.end_address ≡ 0x70000)
    × (h'.end_address < 0x71000)
    × (h'.memory ≡ memory)
    × (h'.index ≡ heap.index)
contract-cuts_example =
    contract-cuts 0x71000 128 (record heap { end_address = 0x80000; start_address = 0 }) refl
      (omega arith) (omega arith) (omega arith) (omega arith)

-- one hole of 200 bytes at 5000
abbrev far : Heap
far = record heap {
  memory = put_tile 5000 1 200 no_bytes;
  index = record { array = λ i. 5000; size = 1; max_size = 8 };
  start_address = 5000;
  end_address = 5200;
}

abbrev early : Kmem
early = record { placement_address = 0x1234; has_heap = false; heap = heap }

abbrev requests : List (ℕ × ℕ)
requests = (100, 0) ∷ (50, 1) ∷ []

kmalloc_int-Laid_example :
    (addrs : List ℕ) × (serve (λ a. 0) 0 requests early ≡ ok addrs) × Laid 0x1234 requests addrs
kmalloc_int-Laid_example = kmalloc_int-Laid (λ a. 0) 0 requests early refl (omega arith)
