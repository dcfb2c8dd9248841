-- ===== src/Mem/Heap.antt =====
-- The kernel's heap: kernel/src/mem/kheap.c, kernel/include/kernel/kheap.h. Memory holds a byte at each
-- address; a header has 12 bytes (magic, is_hole and padding, size) and a footer has 8 (magic, header).
-- What the heap asks of paging.c is a list of calls, and the index lies in memory of its own.
pub mod Words
pub mod Tiles
pub mod Created
pub mod Sizes
use ogos.Prelude.{
  ℕ, zero, suc, ◌+◌, ◌-◌, ◌*◌, ◌/◌, ◌%◌, ◌^◌, bit_and, Bool, true, false, not, ◌&&◌, ◌||◌, List, [],
  ◌∷◌, Option, none, some, ltb, leb, ◌==◌, if◌then◌else◌,
}
use ogos.Prelude.Words.{add32, sub32}
use ogos.Mem.OrderedArray.{
  OrderedArray, place_ordered_array, insert_ordered_array, lookup_ordered_array,
  remove_ordered_array,
}

abbrev pub Bytes : Type 0
Bytes = ℕ → ℕ

-- a word of four bytes, the low one first
unfoldable pub load32 : Bytes → ℕ → ℕ
load32 m a = m a + m (a + 1) * 2 ^ 8 + m (a + 2) * 2 ^ 16 + m (a + 3) * 2 ^ 24

unfoldable pub store32 : Bytes → ℕ → ℕ → Bytes
store32 m a v b =
    if b == a
    then v % 2 ^ 8
    else if b == a + 1
    then v / 2 ^ 8 % 2 ^ 8
    else if b == a + 2
    then v / 2 ^ 16 % 2 ^ 8
    else if b == a + 3
    then v / 2 ^ 24 % 2 ^ 8
    else m b

unfoldable pub store8 : Bytes → ℕ → ℕ → Bytes
store8 m a v b = if b == a then v % 2 ^ 8 else m b

abbrev pub heap_magic : ℕ
heap_magic = 0xDEAD_BEEF

abbrev pub heap_min_size : ℕ
heap_min_size = 0x70000

abbrev pub heap_index_size : ℕ
heap_index_size = 0x20000

-- the sizes of a header, of a footer, and of both
abbrev pub header_size : ℕ
header_size = 12

abbrev pub footer_size : ℕ
footer_size = 8

abbrev pub overhead : ℕ
overhead = 20

abbrev pub magic_of : Bytes → ℕ → ℕ
magic_of m header = load32 m header

abbrev pub is_hole_of : Bytes → ℕ → ℕ
is_hole_of m header = m (header + 4)

abbrev pub size_of : Bytes → ℕ → ℕ
size_of m header = load32 m (header + 8)

-- `footer->header`
abbrev pub header_of : Bytes → ℕ → ℕ
header_of m footer = load32 m (footer + 4)

abbrev pub set_size : ℕ → ℕ → Bytes → Bytes
set_size header size m = store32 m (header + 8) size

unfoldable pub set_header : ℕ → ℕ → ℕ → Bytes → Bytes
set_header header is_hole size m =
    set_size header size (store8 (store32 m header heap_magic) (header + 4) is_hole)

unfoldable pub set_footer : ℕ → ℕ → Bytes → Bytes
set_footer footer header m = store32 (store32 m footer heap_magic) (footer + 4) header

-- a call of `alloc_frame` or `free_frame` for the page of an address
pub data PageCall : Type 0 where
  alloc_page free_page : ℕ → PageCall

-- `heap_t`, with the memory behind it and `phys_mem_usage`.
pub record Heap : Type 0 where
  pub memory : Bytes
  pub index : OrderedArray
  pub start_address : ℕ
  pub end_address : ℕ
  pub max_address : ℕ
  pub supervisor : ℕ
  pub readonly : ℕ
  pub phys_mem_usage : ℕ
  pub calls : List PageCall

-- What an operation comes to; `panic` is a failed assertion.
pub data Outcome {ℓ} (A : Type ℓ) : Type ℓ where
  ok : A → Outcome A
  panic : Outcome A
  out_of_fuel : Outcome A

infixl 5 ◌>>=◌
abbrev pub ◌>>=◌ {ℓ κ} : {A : Type ℓ} {B : Type κ} → Outcome A → (A → Outcome B) → Outcome B
ok a >>= f = f a
panic >>= f = panic
out_of_fuel >>= f = out_of_fuel

abbrev pub assert {ℓ} : {A : Type ℓ} → Bool → Outcome A → Outcome A
assert true next = next
assert false next = panic

abbrev pub looked_up : Option ℕ → Outcome ℕ
looked_up none = panic
looked_up (some a) = ok a

unfoldable pub lookup : ℕ → Heap → Outcome ℕ
lookup i h = looked_up (lookup_ordered_array i h.index)

pub header_t_less_than : Bytes → ℕ → ℕ → Bool
header_t_less_than m a b = ltb (size_of m a) (size_of m b)

unfoldable pub insert_index : ℕ → Heap → Heap
insert_index header h = record h {
  index = insert_ordered_array (header_t_less_than h.memory) header h.index;
}

-- `remove_ordered_array` clears the magic number of the header, in the memory.
unfoldable pub remove_index : ℕ → Heap → Heap
remove_index i h = record h {
  index = (remove_ordered_array i h.index (magic_of h.memory)).0;
  memory = store32 h.memory (h.index.array i) 0;
}

-- `if (n & 0xFFFFF000) { n &= 0xFFFFF000; n += 0x1000; }`
pub round_up : ℕ → ℕ
round_up n = let pages = bit_and n 0xFFFFF000 in if pages == 0 then n else add32 pages 0x1000

-- `while (i < new_size) { alloc_frame(get_page(start + i, ..), ..); i += 0x1000; }`
pub alloc_pages : ℕ → ℕ → ℕ → ℕ → List PageCall → Outcome (List PageCall)
alloc_pages zero start i new_size calls = out_of_fuel
alloc_pages (suc k) start i new_size calls =
    let rest = alloc_pages k start (i + 0x1000) new_size (alloc_page (add32 start i) ∷ calls) in
    if ltb i new_size then rest else ok calls

-- Fuel above the number of the pages is enough.
pub expand : ℕ → ℕ → Heap → Outcome Heap
expand fuel size h =
    let old_size = sub32 h.end_address h.start_address in
    assert (ltb old_size size) (
      let new_size = round_up size in
      assert (leb (add32 h.start_address new_size) h.max_address) (do
        calls ← alloc_pages fuel h.start_address old_size new_size h.calls
        ok (record h { end_address = add32 h.start_address new_size; calls = calls })))

-- The size that `contract` goes down to.
pub contracted : ℕ → ℕ
contracted size =
    let new_size = if bit_and size 0x1000 == 0 then size else add32 (bit_and size 0x1000) 0x1000 in
    if ltb new_size heap_min_size then heap_min_size else new_size

-- `while (new_size < i) { free_frame(get_page(start + i, ..)); i -= 0x1000; }`
pub free_pages : ℕ → ℕ → ℕ → ℕ → List PageCall → Outcome (List PageCall)
free_pages zero start i new_size calls = out_of_fuel
free_pages (suc k) start i new_size calls =
    let rest = free_pages k start (sub32 i 0x1000) new_size (free_page (add32 start i) ∷ calls) in
    if ltb new_size i then rest else ok calls

pub contract : ℕ → ℕ → Heap → Outcome (ℕ × Heap)
contract fuel size h =
    let old_size = sub32 h.end_address h.start_address in
    assert (ltb size old_size) (
      let new_size = contracted size in
      do
        calls ← free_pages fuel h.start_address (sub32 old_size 0x1000) new_size h.calls
        ok (new_size, record h { end_address = add32 h.start_address new_size; calls = calls }))

-- `a <= b` for words read as signed ones
abbrev pub leb_signed : ℕ → ℕ → Bool
leb_signed a b = leb (add32 a (2 ^ 31)) (add32 b (2 ^ 31))

-- Whether a hole is taken. The source's `&` binds looser than `!=`, so that it tests the lowest bit; the
-- difference is a signed one.
unfoldable pub fits : ℕ → ℕ → Bytes → ℕ → Bool
fits size page_align m header =
    if page_align == 0
    then (let offset =
          if bit_and (add32 header header_size) 1 == 0
          then 0
          else 0x1000 - add32 header header_size % 0x1000 in
        let hole_size = sub32 (size_of m header) offset in leb_signed size hole_size)
    else leb size (size_of m header)

-- The loop of `find_smallest_hole`, from an index on, with n to go.
unfoldable pub find_hole : ℕ → ℕ → ℕ → ℕ → Heap → Outcome (Option ℕ)
find_hole zero iterator size page_align h = ok none
find_hole (suc n) iterator size page_align h =
    let rest = find_hole n (iterator + 1) size page_align h in
    do
      header ← lookup iterator h
      assert (magic_of h.memory header == heap_magic)
          (if fits size page_align h.memory header then ok (some iterator) else rest)

unfoldable pub find_smallest_hole : ℕ → ℕ → Heap → Outcome (Option ℕ)
find_smallest_hole size page_align h = find_hole h.index.size 0 size page_align h

-- The source tests the lowest bit here, too.
abbrev pub round_page : ℕ → ℕ
round_page start = if bit_and start 1 == 0 then start else add32 (bit_and start 0xFFFFF000) 0x1000

-- A heap with one hole. The address of the record is not needed.
pub create_heap : ℕ → ℕ → ℕ → ℕ → ℕ → Bytes → (ℕ → ℕ) → ℕ → Outcome Heap
create_heap start end_addr max supervisor readonly memory items usage =
    assert (start % 0x1000 == 0) (
      assert (end_addr % 0x1000 == 0) (
        let first = round_page (add32 start (4 * heap_index_size)) in
        let m = set_header first 1 (sub32 end_addr first) memory in
        ok (
          insert_index first (record {
            memory = m;
            index = place_ordered_array items heap_index_size;
            start_address = first;
            end_address = end_addr;
            max_address = max;
            supervisor = supervisor;
            readonly = readonly;
            phys_mem_usage = usage;
            calls = [];
          }))))
