-- ===== src/Mem/Freeh/Released.antt =====
-- `freeh` makes a hole of a block, and the tiles of the heap stay in order.
use ogos.Prelude.{
  ℕ, ◌+◌, ◌-◌, ◌^◌, ◌<◌, ◌≤◌, ◌≡◌, inl, inr, refl, ap, ◌∙◌, arith, ◌==◌, List, ◌∷◌, ◌++◌, true,
  false,
}
use ogos.Prelude.Words.{add32, sub32}
use ogos.Mem.OrderedArray.Counts.{count, count-append, count-insert_ordered_array}
use ogos.Mem.OrderedArray.Insert.{size-insert}
use ogos.Mem.Heap.{
  Bytes, Heap, ok, store8, heap_magic, magic_of, is_hole_of, header_of, insert_index,
  header_t_less_than,
}
use ogos.Mem.Heap.Words.{
  Header, Footer, Apart, Header-Same, Footer-Same, store8-Apart, store8_at, load32-store8-Apart,
}
use ogos.Mem.Heap.Tiles.{
  Tile, Tiled, IsHeap, holes, holes-append, total, total-append, Tiled-behind, Tiled-replaced,
  Tiled-Same,
}
use ogos.Mem.Freeh.{Freed, unify_left, unify_right, added, freeh}
use ogos.Mem.Freeh.Steps.{unify_left_block, unify_right_block, release_run}

-- A block of n bytes at pos, between a tile u and a block v.
module _ (h : Heap) (us vs : List Tile) (u v : Tile) (n : ℕ)
    (heap : IsHeap h (us ++ u ∷ (record { size = n; hole = 0 }) ∷ v ∷ vs))
    (block : v.hole ≡ 0) where
  abbrev pub left : ℕ
  left = h.start_address + total us

  abbrev pub pos : ℕ
  pos = left + u.size

  abbrev pub right : ℕ
  right = pos + n

  abbrev pub tiles : List Tile
  tiles = u ∷ (record { size = n; hole = 0 }) ∷ v ∷ vs

  pub record Around : Type 0 where
    pub left_big : 20 ≤ u.size
    pub left_flag : u.hole ≤ 1
    pub left_header : Header h.memory left u.size u.hole
    pub left_footer : Footer h.memory left u.size
    pub big : 20 ≤ n
    pub header : Header h.memory pos n 0
    pub footer : Footer h.memory pos n
    pub right_big : 20 ≤ v.size
    pub right_header : Header h.memory right v.size v.hole
    pub rest : Tiled h.memory right (v ∷ vs)
    pub end : right + v.size + total vs ≡ h.end_address

  pub around : Around
  around =
      let (b1, f1, h1, e1, (b2, f2, h2, e2, (b3, f3, h3, e3, r))) =
        Tiled-behind h.memory h.start_address us tiles heap.tiled in
      record {
        left_big = b1;
        left_flag = f1;
        left_header = h1;
        left_footer = e1;
        big = b2;
        header = h2;
        footer = e2;
        right_big = b3;
        right_header = h3;
        rest = (b3, f3, h3, e3, r);
        end = omega (arith, heap.filled, total-append us tiles);
      }

  -- the memory with the block marked as a hole
  abbrev pub marked : Bytes
  marked = store8 h.memory (pos + 4) 1

  pub marked-Apart : (b : ℕ) → Apart (pos + 4) 1 b → marked b ≡ h.memory b
  marked-Apart b apart = store8-Apart h.memory (pos + 4) 1 b apart

  abbrev pub freed_tiles : List Tile
  freed_tiles = u ∷ (record { size = n; hole = 1 }) ∷ v ∷ vs

  marked_Tiled : Tiled marked h.start_address (us ++ freed_tiles)
  marked_Tiled =
      let a = around in
      let big = a.left_big in
      let big2 = a.big in
      Tiled-replaced h.memory marked h.start_address us ((record { size = n; hole = 0 }) ∷ v ∷ vs)
        ((record { size = n; hole = 1 }) ∷ v ∷ vs) u u heap.tiled
        (λ b low high. marked-Apart b (inl (omega arith)))
        (
          big,
          a.left_flag,
          Header-Same h.memory marked left u.size u.hole
              (λ b low high. marked-Apart b (inl (omega arith))) a.left_header,
          Footer-Same h.memory marked left u.size (omega arith)
              (λ b low high. marked-Apart b (inl (omega arith))) a.left_footer,
          (
            big2,
            omega arith,
            record {
              magic =
                  load32-store8-Apart h.memory (pos + 4) 1 pos (inl (omega arith)) ∙ a.header.magic;
              flag = store8_at h.memory (pos + 4) 1 (omega arith);
              size =
                  load32-store8-Apart h.memory (pos + 4) 1 (pos + 8) (inr (omega arith))
                  ∙ a.header.size;
            },
            Footer-Same h.memory marked pos n (omega arith)
                (λ b low high. marked-Apart b (inr (omega arith))) a.footer,
            Tiled-Same h.memory marked right (v ∷ vs)
                (λ b low high. marked-Apart b (inr (omega arith))) a.rest,
          ),
        )

  abbrev pub usage : ℕ
  usage = sub32 h.phys_mem_usage n

  abbrev pub freed_block : Heap
  freed_block = record h { memory = marked; phys_mem_usage = usage }

  pub low : right + v.size < 2 ^ 31
  low = omega (arith, around.end, heap.below)

  abbrev pub start : Freed
  start = record { header = pos; footer = right - 8; do_add = true; heap = freed_block }

  -- what the tests read on the marked memory
  pub left_marked :
      (magic_of marked (pos - 8) ≡ heap_magic)
      × (header_of marked (pos - 8) ≡ left)
      × (is_hole_of marked left ≡ u.hole)
  left_marked =
      let a = around in
      let at : left + u.size - 8 ≡ pos - 8 = omega arith in
      let big = a.left_big in
      let big2 = a.big in
      (
        load32-store8-Apart h.memory (pos + 4) 1 (pos - 8) (inl (omega arith))
            ∙ a.left_footer.magic,
        load32-store8-Apart h.memory (pos + 4) 1 (pos - 8 + 4) (inl (omega arith))
            ∙ a.left_footer.header,
        marked-Apart (left + 4) (inl (omega arith)) ∙ a.left_header.flag,
      )

  pub released :
      (fuel : ℕ) (f1 : Freed)
      → unify_left start ≡ f1
      → unify_right f1 ≡ f1
      → f1.footer ≡ right - 8
      → freeh fuel (pos + 12) h ≡ ok (added f1)
  unfolding freeh
  released fuel f1 unified kept footer =
      let a = around in
      let big = a.big in
      let right_big = a.right_big in
      let data_at : (pos + 12 == 0) ≡ false = ground arith in
      let header_at : sub32 (pos + 12) 12 ≡ pos = omega (arith, low) in
      let footer_at : sub32 (add32 pos n) 8 ≡ right - 8 = omega (arith, low) in
      let not_last : (add32 f1.footer 8 == h.end_address) ≡ false =
        ground (arith, a.end, low, footer) in
      rw (data_at, header_at)
        (release_run fuel pos n (right - 8) h f1 a.header.size a.header.magic footer_at
          a.footer.magic unified kept not_last)

  -- a block to the left: the block becomes a hole of its own
  pub freeh-block :
      (fuel : ℕ) → u.hole ≡ 0 → freeh fuel (pos + 12) h ≡ ok (insert_index pos freed_block)
  freeh-block fuel left_block =
      let a = around in
      let big = a.left_big in
      let big2 = a.big in
      let (magic, header, hole) = left_marked in
      let behind_at : add32 (right - 8) 8 ≡ right = omega (arith, low) in
      let behind_block : is_hole_of marked right ≡ 0 =
        marked-Apart (right + 4) (inr (omega arith)) ∙ a.right_header.flag ∙ block in
      released fuel start
        (unify_left_block start (pos - 8) left (omega (arith, low)) header (hole ∙ left_block))
        (unify_right_block start right behind_at behind_block) refl

  pub freeh_block-IsHeap :
      u.hole ≡ 0
      → h.index.size + 2 < 2 ^ 32
      → IsHeap (insert_index pos freed_block) (us ++ freed_tiles)
  unfolding insert_index
  freeh_block-IsHeap left_block few =
      let less = header_t_less_than marked in
      let small : h.index.size + 1 < 2 ^ 32 = omega arith in
      let u_block : (u.hole == 0) ≡ true = ground arith in
      record {
        tiled = marked_Tiled;
        filled = omega (arith, heap.filled, total-append us tiles, total-append us freed_tiles);
        indexed = λ x.
            let new = count-insert_ordered_array less pos x h.index small in
            let old_parts =
              ap (count x) (holes-append h.start_address us tiles)
              ∙ count-append x (holes h.start_address us) (holes left tiles) in
            let new_parts =
              ap (count x) (holes-append h.start_address us freed_tiles)
              ∙ count-append x (holes h.start_address us) (holes left freed_tiles) in
            let old' = rw u_block at old_parts in
            let new' = rw u_block at new_parts in omega (arith, new, heap.indexed x, old', new');
        below = heap.below;
        few = omega (arith, size-insert less pos h.index small);
      }
