-- ===== src/Mem/Freeh/Joined.antt =====
-- `freeh` of a block behind a hole makes one hole of the two.
use ogos.Prelude.{
  ℕ, ◌+◌, ◌-◌, ◌^◌, ◌<◌, ◌≡◌, inl, inr, refl, ap, sym, subst, ◌∙◌, arith, ◌==◌, if◌then◌else◌, List,
  ◌∷◌, ◌++◌, Bool-cases, true, false,
}
use ogos.Prelude.Words.{add32}
use ogos.Mem.OrderedArray.Counts.{count, count-append}
use ogos.Mem.Heap.{Bytes, Heap, ok, store32, is_hole_of, size_of, set_size, insert_index}
use ogos.Mem.Heap.Words.{
  Header, Footer, Apart, store32-Apart, load32-store8-Apart, load32-store32, load32-store32-Apart,
}
use ogos.Mem.Heap.Tiles.{
  Tile, Tiled, IsHeap, holes, holes-append, total, total-append, Tiled-replaced, Tiled-Same,
}
use ogos.Mem.Freeh.{Freed, freeh}
use ogos.Mem.Freeh.Steps.{unify_left_hole, unify_right_block}
use ogos.Mem.Freeh.Released.{
  Around, around, low, left_marked, marked-Apart, released, freed_block, usage, freeh-block,
  freeh_block-IsHeap,
}

module _ (h : Heap) (us vs : List Tile) (u v : Tile) (n : ℕ)
    (heap : IsHeap h (us ++ u ∷ (record { size = n; hole = 0 }) ∷ v ∷ vs))
    (block : v.hole ≡ 0) where
  abbrev left : ℕ
  left = h.start_address + total us

  abbrev right : ℕ
  right = left + u.size + n

  abbrev marked : Bytes
  marked = (freed_block h us vs u v n heap block).memory

  abbrev facts : Around h us vs u v n heap block
  facts = around h us vs u v n heap block

  bound : right + v.size < 2 ^ 31
  bound = low h us vs u v n heap block

  -- the footer points to the left header, and that one has the size of both
  abbrev linked : Bytes
  linked = store32 marked (right - 8 + 4) left

  abbrev joined : Bytes
  joined = set_size left (u.size + n) linked

  joined-Apart : (b : ℕ) → Apart left (u.size + n) b → joined b ≡ h.memory b
  joined-Apart b apart =
      let big = facts.left_big in
      let big2 = facts.big in
      store32-Apart linked (left + 8) (u.size + n) b (ground arith)
      ∙ store32-Apart marked (right - 8 + 4) left b (ground arith)
      ∙ marked-Apart h us vs u v n heap block b (ground arith)

  joined-Header : u.hole ≡ 1 → Header joined left (u.size + n) 1
  joined-Header hole =
      let big = facts.left_big in
      let big2 = facts.big in
      record {
        magic =
            load32-store32-Apart linked (left + 8) (u.size + n) left (inl (omega arith))
            ∙ load32-store32-Apart marked (right - 8 + 4) left left (inl (omega arith))
            ∙ load32-store8-Apart h.memory (left + u.size + 4) 1 left (inl (omega arith))
            ∙ facts.left_header.magic;
        flag =
            store32-Apart linked (left + 8) (u.size + n) (left + 4) (inl (omega arith))
            ∙ store32-Apart marked (right - 8 + 4) left (left + 4) (inl (omega arith))
            ∙ (left_marked h us vs u v n heap block).2
            ∙ hole;
        size = load32-store32 linked (left + 8) (u.size + n) (omega (arith, bound));
      }

  joined-Footer : Footer joined left (u.size + n)
  joined-Footer =
      let big = facts.left_big in
      let big2 = facts.big in
      let at : left + (u.size + n) - 8 ≡ right - 8 = omega arith in
      record {
        magic = rw at (
            load32-store32-Apart linked (left + 8) (u.size + n) (right - 8) (inr (omega arith))
            ∙ load32-store32-Apart marked (right - 8 + 4) left (right - 8) (inl (omega arith))
            ∙ load32-store8-Apart h.memory (left + u.size + 4) 1 (right - 8) (inr (omega arith))
            ∙ facts.footer.magic);
        header = rw at (
            load32-store32-Apart linked (left + 8) (u.size + n) (right - 8 + 4) (inr (omega arith))
            ∙ load32-store32 marked (right - 8 + 4) left (omega (arith, bound)));
      }

  abbrev joined_tiles : List Tile
  joined_tiles = (record { size = u.size + n; hole = 1 }) ∷ v ∷ vs

  abbrev joined_heap : Heap
  joined_heap = record h { memory = joined; phys_mem_usage = usage h us vs u v n heap block }

  joined-IsHeap : u.hole ≡ 1 → IsHeap joined_heap (us ++ joined_tiles)
  joined-IsHeap hole =
      let big = facts.left_big in
      let big2 = facts.big in
      let one : Tile = record { size = u.size + n; hole = 1 } in
      let tiles = u ∷ (record { size = n; hole = 0 }) ∷ v ∷ vs in
      let is_hole : (u.hole == 0) ≡ false = ground arith in
      let end : left + (u.size + n) ≡ right = omega arith in
      record {
        tiled =
            Tiled-replaced h.memory joined h.start_address us
              ((record { size = n; hole = 0 }) ∷ v ∷ vs) (v ∷ vs) u one heap.tiled
              (λ b low high. joined-Apart b (inl high))
              (
                omega arith,
                omega arith,
                joined-Header hole,
                joined-Footer,
                subst (λ a. Tiled joined a (v ∷ vs)) (sym end)
                    (Tiled-Same h.memory joined right (v ∷ vs)
                      (λ b low high. joined-Apart b (inr (omega arith))) facts.rest),
              );
        filled = omega (arith, heap.filled, total-append us tiles, total-append us joined_tiles);
        indexed = λ x.
            let old_parts =
              ap (count x) (holes-append h.start_address us tiles)
              ∙ count-append x (holes h.start_address us) (holes left tiles) in
            let new_parts =
              ap (count x) (holes-append h.start_address us joined_tiles)
              ∙ count-append x (holes h.start_address us) (holes left joined_tiles) in
            let old' = rw is_hole at old_parts in
            let new' = rw end at new_parts in omega (arith, heap.indexed x, old', new');
        below = heap.below;
        few = heap.few;
      }

  freeh-hole : (fuel : ℕ) → u.hole ≡ 1 → freeh fuel (left + u.size + 12) h ≡ ok joined_heap
  freeh-hole fuel hole =
      let big = facts.left_big in
      let big2 = facts.big in
      let pos = left + u.size in
      let (magic, header, flag) = left_marked h us vs u v n heap block in
      let start : Freed = record {
        header = pos;
        footer = right - 8;
        do_add = true;
        heap = freed_block h us vs u v n heap block;
      } in
      let f1 : Freed = record {
        header = left;
        footer = right - 8;
        do_add = false;
        heap = joined_heap;
      } in
      let old_size : size_of linked left ≡ u.size =
        load32-store32-Apart marked (right - 8 + 4) left (left + 8) (inl (omega arith))
        ∙ load32-store8-Apart h.memory (pos + 4) 1 (left + 8) (inl (omega arith))
        ∙ facts.left_header.size in
      let own_size : size_of marked pos ≡ n =
        load32-store8-Apart h.memory (pos + 4) 1 (pos + 8) (inr (omega arith))
        ∙ facts.header.size in
      let sum : add32 (size_of linked left) (size_of marked pos) ≡ u.size + n =
        omega (arith, old_size, own_size, bound) in
      let behind_block : is_hole_of joined right ≡ 0 =
        joined-Apart (right + 4) (inr (omega arith)) ∙ facts.right_header.flag ∙ block in
      released h us vs u v n heap block fuel f1
        (unify_left_hole start (pos - 8) left (u.size + n) (omega (arith, bound)) magic header
          (flag ∙ hole) sum)
        (unify_right_block f1 right (omega (arith, bound)) behind_block) refl

-- `freeh` of the data of a block behind a tile and in front of another block gives a heap whose tiles are in
-- order, with the index holding just the holes: where the tile to the left is a block, the block is a
-- hole of its own, and where it is a hole, the two are one.
pub freeh-IsHeap :
    (h : Heap) (us vs : List Tile) (u v : Tile) (n fuel : ℕ)
    → IsHeap h (us ++ u ∷ (record { size = n; hole = 0 }) ∷ v ∷ vs)
    → v.hole ≡ 0
    → h.index.size + 2 < 2 ^ 32
    → (h' : Heap) × (freeh fuel (h.start_address + total us + u.size + 12) h ≡ ok h')
      × IsHeap h' (
          us
          ++ (if u.hole == 0
              then u ∷ (record { size = n; hole = 1 }) ∷ v ∷ vs
              else (record { size = u.size + n; hole = 1 }) ∷ v ∷ vs))
freeh-IsHeap h us vs u v n fuel heap block few = elim (Bool-cases (u.hole == 0)) [
  | inl is_block ↦
      let e : u.hole ≡ 0 = ground arith in
      (
        insert_index (h.start_address + total us + u.size) (freed_block h us vs u v n heap block),
        freeh-block h us vs u v n heap block fuel e,
        rw is_block (freeh_block-IsHeap h us vs u v n heap block e few),
      )
  | inr is_hole ↦
      let flag = (around h us vs u v n heap block).left_flag in
      let e : u.hole ≡ 1 = ground (arith, flag) in
      (
        joined_heap h us vs u v n heap block,
        freeh-hole h us vs u v n heap block fuel e,
        rw is_hole (joined-IsHeap h us vs u v n heap block e),
      )
]
