-- ===== src/Mem/Kalloc/Carved.antt =====
-- `kalloc` takes a block out of a hole, and the tiles of the heap stay in order.
use ogos.Prelude.{
  ℕ, ◌+◌, ◌-◌, ◌^◌, ◌<◌, ◌≤◌, ◌≡◌, inl, inr, refl, ap, sym, subst, ◌∙◌, arith, ◌==◌, List, ◌∷◌,
  ◌++◌, false,
}
use ogos.Mem.OrderedArray.{remove_ordered_array}
use ogos.Mem.OrderedArray.Contents.{contents}
use ogos.Mem.OrderedArray.Counts.{
  count, count-append, count-items, count-insert_ordered_array, count-remove_ordered_array,
  size-remove,
}
use ogos.Mem.OrderedArray.Insert.{size-insert}
use ogos.Mem.Heap.{Bytes, Heap, store32, magic_of, remove_index, insert_index, header_t_less_than}
use ogos.Mem.Heap.Words.{Header, Same, Apart, store32-Apart}
use ogos.Mem.Heap.Tiles.{
  Tile, Tiled, IsHeap, Around, holes, holes-Around, holes-append, total, total-append, put_tile,
  put_tile-Apart, Tiled-behind, Tiled-replaced, Tiled-Same,
}
use ogos.Mem.Kalloc.Placed.{Tiled-whole, Tiled-split}

-- the tile that an item of the index is the address of
pub indexed_tile :
    (h : Heap) (ts : List Tile) (k : ℕ)
    → IsHeap h ts
    → k < h.index.size
    → (r : Around h.start_address (h.index.array k) ts) × Header h.memory
        (h.index.array k)
        r.tile.size
        r.tile.hole
indexed_tile h ts k heap inside =
    let once = count-items 0 k h.index.size h.index.array (omega arith) (omega arith) in
    let r =
      holes-Around h.start_address (h.index.array k) ts
        (omega (arith, once, heap.indexed (h.index.array k))) in
    let tiled = subst (Tiled h.memory h.start_address) r.all heap.tiled in
    let (big, flag, header, ends, rest) =
      Tiled-behind h.memory h.start_address r.before (r.tile ∷ r.behind) tiled in
    (r, subst (λ a. Header h.memory a r.tile.size r.tile.hole) (sym r.at) header)

module _ (h : Heap) (xs ys : List Tile) (t : Tile) (k : ℕ) (heap : IsHeap h (xs ++ t ∷ ys))
    (inside : k < h.index.size) (at : h.index.array k ≡ h.start_address + total xs)
    (free : (t.hole == 0) ≡ false) where
  abbrev pub pos : ℕ
  pos = h.start_address + total xs

  abbrev pub cleared : Bytes
  cleared = store32 h.memory pos 0

  pub ends : pos + t.size + total ys ≡ h.end_address
  ends = omega (arith, heap.filled, total-append xs (t ∷ ys))

  pub tile_big : 20 ≤ t.size
  tile_big = (Tiled-behind h.memory h.start_address xs (t ∷ ys) heap.tiled).0

  behind : Tiled cleared (pos + t.size) ys
  behind =
      let (big, flag, header, footer, rest) =
        Tiled-behind h.memory h.start_address xs (t ∷ ys) heap.tiled in
      Tiled-Same h.memory cleared (pos + t.size) ys
        (λ b low high. store32-Apart h.memory pos 0 b (inr (omega (arith, tile_big)))) rest

  before : Same h.memory cleared h.start_address (total xs)
  before b low high = store32-Apart h.memory pos 0 b (inl high)

  pub removed : (remove_index k h) ≡ record h {
    index = (remove_ordered_array k h.index (magic_of h.memory)).0;
    memory = cleared;
  }
  unfolding remove_index
  removed = rw at refl

  -- the index without the hole
  count_removed :
      (x : ℕ)
      → count x (contents (remove_ordered_array k h.index (magic_of h.memory)).0)
        ≡ count x (holes h.start_address xs) + count x (holes (pos + t.size) ys)
  count_removed x =
      let gone =
        count-remove_ordered_array k x h.index (magic_of h.memory) inside
          (omega (arith, heap.few)) in
      let gone' = rw at at gone in
      let parts =
        ap (count x) (holes-append h.start_address xs (t ∷ ys))
        ∙ count-append x (holes h.start_address xs) (holes pos (t ∷ ys)) in
      let parts' = rw free at parts in omega (arith, gone', parts', heap.indexed x)

  abbrev pub whole_heap : Heap
  whole_heap = record h {
    index = (remove_ordered_array k h.index (magic_of h.memory)).0;
    memory = put_tile pos 0 t.size cleared;
  }

  pub whole-IsHeap : IsHeap whole_heap (xs ++ (record { size = t.size; hole = 0 }) ∷ ys)
  whole-IsHeap =
      let block : Tile = record { size = t.size; hole = 0 } in
      let memory = put_tile pos 0 t.size cleared in
      record {
        tiled =
            Tiled-replaced h.memory memory h.start_address xs ys ys t block heap.tiled
              (λ b low high.
                put_tile-Apart pos 0 t.size cleared b tile_big (inl high) ∙ before b low high)
              (Tiled-whole cleared pos t.size t.size ys tile_big (omega (arith, ends, heap.below))
                behind refl);
        filled = omega (arith, ends, total-append xs (block ∷ ys));
        indexed = λ x.
            let parts =
              ap (count x) (holes-append h.start_address xs (block ∷ ys))
              ∙ count-append x (holes h.start_address xs) (holes (pos + t.size) ys) in
            omega (arith, count_removed x, parts);
        below = heap.below;
        few = omega (arith, heap.few, size-remove k h.index (magic_of h.memory));
      }

  module _ (new : ℕ) (big : 20 ≤ new) (left : new + 20 ≤ t.size) where
    abbrev pub split_memory : Bytes
    split_memory = put_tile (pos + new) 1 (t.size - new) (put_tile pos 0 new cleared)

    abbrev pub split_heap : Heap
    split_heap = insert_index (pos + new) (record h {
      index = (remove_ordered_array k h.index (magic_of h.memory)).0;
      memory = split_memory;
    })

    pub split-IsHeap :
        IsHeap split_heap (
          xs ++ (record { size = new; hole = 0 }) ∷ (record { size = t.size - new; hole = 1 }) ∷ ys)
    unfolding insert_index
    split-IsHeap =
        let block : Tile = record { size = new; hole = 0 } in
        let rest : Tile = record { size = t.size - new; hole = 1 } in
        let index = (remove_ordered_array k h.index (magic_of h.memory)).0 in
        let less = header_t_less_than split_memory in
        let smaller =
          size-remove k h.index (magic_of h.memory) (omega arith) (omega (arith, heap.few)) in
        let small : index.size + 1 < 2 ^ 32 = omega (arith, smaller, heap.few) in
        let room : pos + t.size < 2 ^ 31 = omega (arith, ends, heap.below) in
        record {
          tiled =
              Tiled-replaced h.memory split_memory h.start_address xs ys (rest ∷ ys) t block
                heap.tiled
                (λ b low high.
                  put_tile-Apart (pos + new) 1 (t.size - new) (put_tile pos 0 new cleared) b
                    (omega arith) (inl (omega arith))
                  ∙ put_tile-Apart pos 0 new cleared b big (inl high)
                  ∙ before b low high)
                (Tiled-split cleared pos t.size new ys big room behind left);
          filled = omega (arith, ends, total-append xs (block ∷ rest ∷ ys));
          indexed = λ x.
              let added = count-insert_ordered_array less (pos + new) x index small in
              let parts =
                ap (count x) (holes-append h.start_address xs (block ∷ rest ∷ ys))
                ∙ count-append x (holes h.start_address xs) (holes pos (block ∷ rest ∷ ys)) in
              let end : pos + new + (t.size - new) ≡ pos + t.size = omega arith in
              let parts' = rw end at parts in omega (arith, added, count_removed x, parts');
          below = heap.below;
          few = omega (arith, size-insert less (pos + new) index small, smaller, heap.few);
        }

    pub split_others : (b : ℕ) → Apart pos t.size b → split_memory b ≡ h.memory b
    split_others b apart = elim apart [
      | inl low ↦
          put_tile-Apart (pos + new) 1 (t.size - new) (put_tile pos 0 new cleared) b (omega arith)
            (inl (omega arith))
          ∙ put_tile-Apart pos 0 new cleared b big (inl low)
          ∙ store32-Apart h.memory pos 0 b (inl low)
      | inr high ↦
          put_tile-Apart (pos + new) 1 (t.size - new) (put_tile pos 0 new cleared) b (omega arith)
            (inr (omega arith))
          ∙ put_tile-Apart pos 0 new cleared b big (inr (omega arith))
          ∙ store32-Apart h.memory pos 0 b (inr (omega (arith, tile_big)))
    ]

  pub whole_others : (b : ℕ) → Apart pos t.size b → whole_heap.memory b ≡ h.memory b
  whole_others b apart = elim apart [
    | inl low ↦
        put_tile-Apart pos 0 t.size cleared b tile_big (inl low)
        ∙ store32-Apart h.memory pos 0 b (inl low)
    | inr high ↦
        put_tile-Apart pos 0 t.size cleared b tile_big (inr high)
        ∙ store32-Apart h.memory pos 0 b (inr (omega (arith, tile_big)))
  ]
