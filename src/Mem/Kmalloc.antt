-- ===== src/Mem/Kmalloc.antt =====
-- Memory for the kernel: `kmalloc_int` and the functions that call it, of kernel/src/mem/kheap.c. Before
-- there is a heap, memory is taken from a placement address on.
pub mod Placement
use ogos.Prelude.{
  ℕ, zero, suc, ◌+◌, ◌-◌, ◌*◌, ◌%◌, ◌^◌, bit_and, Bool, true, false, not, ◌&&◌, Option, none, some,
  ltb, leb, ◌==◌, if◌then◌else◌,
}
use ogos.Prelude.Words.{add32, mul32}
use ogos.Libc.Memory.{memcpy}
use ogos.Mem.Heap.{Heap, Outcome, ok, panic, out_of_fuel, ◌>>=◌}
use ogos.Mem.Kalloc.{kalloc}
use ogos.Mem.Freeh.{freeh}

-- `placement_address`, `kheap` and the heap that it points to; `has_heap` is false while `kheap` is null. The
-- count of used memory stands with the heap.
pub record Kmem : Type 0 where
  pub placement_address : ℕ
  pub has_heap : Bool
  pub heap : Heap

-- An address, and the physical one, which the callers that give no pointer ignore.
pub record Given : Type 0 where
  pub addr : ℕ
  pub phys : ℕ

abbrev pub count_usage : ℕ → Heap → Heap
count_usage sz h = record h { phys_mem_usage = add32 h.phys_mem_usage sz }

-- `if (align == 1 && (placement_address & 0xFFFFF000)) { .. &= 0xFFFFF000; .. += 0x1000; }`
unfoldable pub align_placement : ℕ → ℕ → ℕ
align_placement align placement =
    let page = bit_and placement 0xFFFFF000 in
    if (align == 1) && not (page == 0) then add32 page 0x1000 else placement

unfoldable pub take_placement : ℕ → ℕ → Kmem → Given × Kmem
take_placement sz align k =
    let addr = align_placement align k.placement_address in
    (
      record { addr = addr; phys = addr },
      record k { placement_address = add32 addr sz; heap = count_usage sz k.heap },
    )

-- What the page tables say of an address: the frame of its page.
module _ (frame_of : ℕ → ℕ) where
  pub from_heap : ℕ → ℕ → ℕ → Kmem → Outcome (Given × Kmem)
  from_heap fuel sz align k = do
    (addr, h) ← kalloc fuel sz (align % 2 ^ 8) k.heap
    let phys = add32 (mul32 (frame_of addr) 0x1000) (bit_and addr 0xFFF)
    ok (record { addr = addr; phys = phys }, record k { heap = count_usage sz h })

  unfoldable pub kmalloc_int : ℕ → ℕ → ℕ → Kmem → Outcome (Given × Kmem)
  kmalloc_int fuel sz align k =
      if k.has_heap then from_heap fuel sz align k else ok (take_placement sz align k)

  pub kfree : ℕ → ℕ → Kmem → Outcome Kmem
  kfree fuel p k = do h ← freeh fuel p k.heap; ok (record k { heap = h })

  -- `kmalloc` and `kmalloc_p`, `kmalloc_a` and `kmalloc_ap`
  pub kmalloc : ℕ → ℕ → Kmem → Outcome (Given × Kmem)
  kmalloc fuel sz k = kmalloc_int fuel sz 0 k

  pub kmalloc_a : ℕ → ℕ → Kmem → Outcome (Given × Kmem)
  kmalloc_a fuel sz k = kmalloc_int fuel sz 1 k

  -- `krealloc` and `krealloc_p` for no alignment, `krealloc_a` and `krealloc_ap` for 1
  pub krealloc : ℕ → ℕ → ℕ → ℕ → ℕ → Kmem → Outcome (Given × Kmem)
  krealloc fuel align ptr old_sz new_sz k = do
    (out, k1) ← kmalloc_int fuel new_sz align k
    let h = k1.heap
    let moved = record k1 { heap = record h { memory = memcpy out.addr ptr old_sz h.memory } }
    k2 ← kfree fuel ptr moved
    ok (out, k2)
