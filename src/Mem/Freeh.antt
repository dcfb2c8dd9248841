-- ===== src/Mem/Freeh.antt =====
-- The release of blocks of the heap: `freeh` and `size_of_alloc` of kernel/src/mem/kheap.c.
pub mod Steps
pub mod Released
pub mod Joined
pub mod Stale
use ogos.Prelude.{
  ℕ, zero, suc, ◌+◌, ◌-◌, ◌*◌, ◌/◌, ◌%◌, ◌^◌, bit_and, Bool, true, false, not, ◌&&◌, ◌||◌, Option,
  none, some, ltb, leb, ◌==◌, if◌then◌else◌,
}
use ogos.Prelude.Words.{add32, sub32}
use ogos.Mem.OrderedArray.{OrderedArray}
use ogos.Mem.Heap.{
  Bytes, Heap, Outcome, ok, panic, out_of_fuel, ◌>>=◌, assert, heap_magic, load32, store32, store8,
  header_size, footer_size, overhead, magic_of, is_hole_of, size_of, header_of, set_size,
  set_footer, insert_index, remove_index, contract,
}

-- `while (iterator < size && index[iterator] != header) iterator++;` with n to go
unfoldable pub search_index : ℕ → ℕ → ℕ → (ℕ → ℕ) → ℕ
search_index zero iterator header array = iterator
search_index (suc n) iterator header array =
    let rest = search_index n (iterator + 1) header array in
    if array iterator == header then iterator else rest

-- Where `freeh` stands: the hole's header and footer, and whether the index lacks the hole.
pub record Freed : Type 0 where
  pub header : ℕ
  pub footer : ℕ
  pub do_add : Bool
  pub heap : Heap

-- A hole to the left takes the block in.
pub unify_left : Freed → Freed
unify_left f =
    let m = f.heap.memory in
    let test_footer = sub32 f.header footer_size in
    let left = header_of m test_footer in
    if (magic_of m test_footer == heap_magic) && not (is_hole_of m left == 0)
    then (let cache_size = size_of m f.header in
        let m1 = store32 m (f.footer + 4) left in
        let m2 = set_size left (add32 (size_of m1 left) cache_size) m1 in
        record {
          header = left;
          footer = f.footer;
          do_add = false;
          heap = record f.heap { memory = m2 };
        })
    else f

-- The hole behind the block, taken in and out of the index. Where the index does not have it, the
-- loop ends at the size of the index, which the test after it lets pass.
unfoldable pub take_right : ℕ → Freed → Freed
take_right test_header f =
    let h = f.heap in
    let m = h.memory in
    let iterator = search_index h.index.size 0 test_header h.index.array in
    if ltb h.index.size iterator
    then record f {
      heap = record h { memory = store8 (store32 m test_header 0) (test_header + 4) 1 };
    }
    else (let m1 = set_size f.header (add32 (size_of m f.header) (size_of m test_header)) m in
        let footer = sub32 (add32 test_header (size_of m1 test_header)) footer_size in
        record f { footer = footer; heap = remove_index iterator (record h { memory = m1 }) })

pub unify_right : Freed → Freed
unify_right f =
    let m = f.heap.memory in
    let test_header = add32 f.footer footer_size in
    if (magic_of m test_header == heap_magic) && not (is_hole_of m test_header == 0)
    then take_right test_header f
    else f

-- What `contract` leaves of the last hole, from which it took `less`. Where nothing is left the source
-- looks in the index for `test_header`, the address behind the block that was freed.
pub shrunk : ℕ → ℕ → Freed → Freed
shrunk test_header less f =
    let h = f.heap in
    let rest = sub32 (size_of h.memory f.header) less in
    let footer = sub32 (add32 f.header rest) footer_size in
    let iterator = search_index h.index.size 0 test_header h.index.array in
    if rest == 0
    then (if ltb iterator h.index.size then record f { heap = remove_index iterator h } else f)
    else record f {
      footer = footer;
      heap = record h { memory = set_footer footer f.header (set_size f.header rest h.memory) };
    }

pub shrink : ℕ → ℕ → Freed → Outcome Freed
shrink fuel test_header f = do
  let h = f.heap
  let old_length = sub32 h.end_address h.start_address
  (new_length, h1) ← contract fuel (sub32 f.header h.start_address) h
  ok (shrunk test_header (sub32 old_length new_length) (record f { heap = h1 }))

abbrev pub added : Freed → Heap
added f = if f.do_add then insert_index f.header f.heap else f.heap

-- A block becomes a hole and joins its neighbours. The fuel is for the pages of `contract`.
pub release : ℕ → ℕ → Heap → Outcome Heap
release fuel header h =
    let m = h.memory in
    let size = size_of m header in
    let footer = sub32 (add32 header size) footer_size in
    assert (magic_of m header == heap_magic) (
      assert (magic_of m footer == heap_magic) (
        let h1 = record h {
          memory = store8 m (header + 4) 1;
          phys_mem_usage = sub32 h.phys_mem_usage size;
        } in
        let f1 =
          unify_left (record { header = header; footer = footer; do_add = true; heap = h1 }) in
        let f2 = unify_right f1 in
        let shorter = shrink fuel (add32 footer footer_size) f2 in
        do
          f3 ← (if add32 f2.footer footer_size == h.end_address then shorter else ok f2)
          ok (added f3)))

unfoldable pub freeh : ℕ → ℕ → Heap → Outcome Heap
freeh fuel p h = if p == 0 then ok h else release fuel (sub32 p header_size) h

-- The size in the header before the data, less that of the header and the footer.
unfoldable pub size_of_alloc : ℕ → Heap → ℕ
size_of_alloc p h = sub32 (load32 h.memory (sub32 p 4)) overhead
