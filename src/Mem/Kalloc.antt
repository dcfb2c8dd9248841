-- ===== src/Mem/Kalloc.antt =====
-- Allocation on the heap: `kalloc` of kernel/src/mem/kheap.c.
pub mod Placed
pub mod Found
pub mod Carved
pub mod Allocated
pub mod Overrun
use ogos.Prelude.{
  ℕ, zero, suc, ◌+◌, ◌-◌, ◌*◌, ◌/◌, ◌%◌, ◌^◌, bit_and, Bool, true, false, not, ◌&&◌, ◌||◌, Option,
  none, some, ltb, leb, ◌==◌, if◌then◌else◌,
}
use ogos.Prelude.Words.{add32, sub32}
use ogos.Mem.OrderedArray.{OrderedArray}
use ogos.Mem.Heap.{
  Heap, Outcome, ok, panic, out_of_fuel, ◌>>=◌, header_size, footer_size, overhead, size_of,
  set_size, set_header, set_footer, lookup, insert_index, remove_index, expand, find_smallest_hole,
}

-- The loop for the header with the highest address, from an index on, with n to go.
pub endmost : ℕ → ℕ → ℕ → Option ℕ → Heap → Outcome (Option ℕ)
endmost zero iterator value idx h = ok idx
endmost (suc n) iterator value idx h = do
  tmp ← lookup iterator h
  endmost n (iterator + 1) (if ltb value tmp then tmp else value)
      (if ltb value tmp then some iterator else idx) h

-- What a larger heap makes of its last header, or a new one where there is none.
pub stretch : ℕ → ℕ → Option ℕ → Heap → Outcome Heap
stretch old_end_address more none h =
    let m = set_header old_end_address 1 more h.memory in
    let footer = sub32 (add32 old_end_address more) footer_size in
    ok (insert_index old_end_address (record h { memory = set_footer footer old_end_address m }))
stretch old_end_address more (some idx) h = do
  header ← lookup idx h
  let size = add32 (size_of h.memory header) more
  let footer = sub32 (add32 header size) footer_size
  ok (record h { memory = set_footer footer header (set_size header size h.memory) })

-- The case of no hole that fits, up to the call of `kalloc` again.
pub grow : ℕ → ℕ → Heap → Outcome Heap
grow fuel new_size h = do
  let old_length = sub32 h.end_address h.start_address
  h1 ← expand fuel (add32 old_length new_size) h
  let new_length = sub32 h1.end_address h1.start_address
  idx ← endmost h1.index.size 0 0 none h1
  stretch h.end_address (sub32 new_length old_length) idx h1

-- A block with its header and footer, and a hole behind it if any of the room is left. `size` is
-- the one that the caller gets, `new_size` the one of the block, and `room` the one of the hole.
pub put_block : ℕ → ℕ → ℕ → ℕ → Heap → Heap
put_block pos room size new_size h =
    let m = set_header pos 0 new_size h.memory in
    let h1 = record h { memory = set_footer (add32 (add32 pos header_size) size) pos m } in
    let rest = sub32 room new_size in
    if rest == 0
    then h1
    else (let hole = add32 (add32 (add32 pos header_size) size) footer_size in
        let m1 = set_header hole 1 rest h1.memory in
        let footer = sub32 (add32 hole rest) footer_size in
        let m2 = if ltb footer h.end_address then set_footer footer hole m1 else m1 in
        insert_index hole (record h1 { memory = m2 }))

-- A hole in front of a block whose data starts a page. It stays in the index.
pub put_front : ℕ → ℕ → Heap → Heap
put_front pos front h =
    let m = set_header pos 1 front h.memory in
    record h { memory = set_footer (sub32 (add32 pos front) footer_size) pos m }

-- The block in a hole at its start, or where its data starts a page, and the address of the data.
pub place_block : ℕ → ℕ → ℕ → ℕ → ℕ → ℕ → Heap → ℕ × Heap
place_block iterator pos room size new_size page_align h =
    if not (page_align == 0) && not (bit_and pos 0xFFFFF000 == 0)
    then (let front = sub32 (0x1000 - bit_and pos 0xFFF) header_size in
        let pos' = add32 pos front in
        (
          add32 pos' header_size,
          put_block pos' (sub32 room front) size new_size (put_front pos front h),
        ))
    else (add32 pos header_size, put_block pos room size new_size (remove_index iterator h))

-- A block in the hole at an index, and the address of its data.
pub carve : ℕ → ℕ → ℕ → ℕ → Heap → Outcome (ℕ × Heap)
carve iterator size new_size page_align h = do
  pos ← lookup iterator h
  let room = size_of h.memory pos
  let whole = ltb (sub32 room new_size) overhead
  let size' = if whole then add32 size (sub32 room new_size) else size
  let new_size' = if whole then room else new_size
  ok (place_block iterator pos room size' new_size' page_align h)

-- The fuel is for the calls of itself and for the pages of `expand`.
pub kalloc : ℕ → ℕ → ℕ → Heap → Outcome (ℕ × Heap)
kalloc zero size page_align h = out_of_fuel
kalloc (suc fuel) size page_align h = do
  let new_size = add32 size overhead
  found ← find_smallest_hole new_size page_align h
  elim found [
    | some iterator ↦ carve iterator size new_size page_align h
    | none ↦ do h1 ← grow fuel new_size h; kalloc fuel size page_align h1
  ]
