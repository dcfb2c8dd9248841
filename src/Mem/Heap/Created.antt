-- ===== src/Mem/Heap/Created.antt =====
-- A new heap.
use ogos.Prelude.{
  ℕ, ◌+◌, ◌-◌, ◌*◌, ◌%◌, ◌^◌, ◌<◌, ◌≤◌, ◌≡◌, refl, ◌∙◌, arith, ◌==◌, [], ◌∷◌, bit_and, true,
}
use ogos.Prelude.Words.{add32, sub32}
use ogos.Prelude.Bits.{bit_and-mask}
use ogos.Mem.OrderedArray.{OrderedArray, place_ordered_array}
use ogos.Mem.OrderedArray.Counts.{count-insert_ordered_array}
use ogos.Mem.OrderedArray.Insert.{size-insert}
use ogos.Mem.Heap.{
  Bytes, Heap, ok, set_header, insert_index, round_page, heap_index_size, header_t_less_than,
  create_heap,
}
use ogos.Mem.Heap.Words.{set_header-Header}
use ogos.Mem.Heap.Tiles.{Tile, IsHeap}

module _ (start end max supervisor readonly usage : ℕ) (memory : Bytes) (items : ℕ → ℕ)
    (aligned : start % 0x1000 ≡ 0) (end_aligned : end % 0x1000 ≡ 0)
    (room : start + 0x80000 + 20 ≤ end) (below : end < 2 ^ 31) where
  abbrev first : ℕ
  first = start + 0x80000

  abbrev index : OrderedArray
  index = place_ordered_array items heap_index_size

  rounded : round_page (add32 start (4 * heap_index_size)) ≡ first
  rounded =
      let sum : add32 start 0x80000 ≡ first = omega arith in
      let even : bit_and first 1 ≡ 0 = bit_and-mask first 1 ∙ omega arith in rw (sum, even) refl

  -- `create_heap` between two page boundaries, with room for the index and a hole, makes a heap whose
  -- tiles are in order: one hole behind the index, which holds its address.
  pub create_heap-IsHeap :
      (h : Heap) × (create_heap start end max supervisor readonly memory items usage ≡ ok h)
      × IsHeap h ((record { size = end - first; hole = 1 }) ∷ [])
      × (h.start_address ≡ first)
      × (h.end_address ≡ end)
  unfolding create_heap insert_index place_ordered_array
  create_heap-IsHeap =
      let tests : (start % 0x1000 == 0) ≡ true = ground arith in
      let end_tests : (end % 0x1000 == 0) ≡ true = ground arith in
      let size : sub32 end first ≡ end - first = omega arith in
      let m = set_header first 1 (end - first) memory in
      let less = header_t_less_than m in
      let hole : Tile = record { size = end - first; hole = 1 } in
      (
        insert_index first (record {
          memory = m;
          index = index;
          start_address = first;
          end_address = end;
          max_address = max;
          supervisor = supervisor;
          readonly = readonly;
          phys_mem_usage = usage;
          calls = [];
        }),
        rw (tests, end_tests, rounded, size) refl,
        record {
          tiled = (
            omega arith,
            omega arith,
            set_header-Header first 1 (end - first) memory (omega arith) (omega arith),
            λ block. absurd (ground (arith, block)),
            tt,
          );
          filled = omega arith;
          indexed = λ x. count-insert_ordered_array less first x index (omega arith);
          below = below;
          few = omega (arith, size-insert less first index (omega arith));
        },
        refl,
        refl,
      )
