-- ===== src/Mem/Kalloc/Placed.antt =====
-- What `put_block` makes of a hole.
use ogos.Prelude.{
  ℕ, ◌+◌, ◌-◌, ◌^◌, ◌<◌, ◌≤◌, ◌≡◌, inl, inr, refl, subst, ◌∙◌, arith, ltb, ◌==◌, if◌then◌else◌,
  List, [], ◌∷◌, true, false,
}
use ogos.Prelude.Words.{add32, sub32}
use ogos.Mem.Heap.{Bytes, Heap, insert_index}
use ogos.Mem.Heap.Words.{Header-Same, Footer-Same}
use ogos.Mem.Heap.Tiles.{
  Tile, Tiled, put_tile, put_tile-Apart, put_tile_lem, Ends-Footer, Tiled-Same,
}
use ogos.Mem.Kalloc.{put_block}

-- a hole that is taken whole
pub put_block_whole :
    (pos room size : ℕ) (h : Heap)
    → size + 20 ≡ room
    → pos + room < 2 ^ 31
    → put_block pos room size room h ≡ record h { memory = put_tile pos 0 room h.memory }
unfolding put_block
put_block_whole pos room size h fits low =
    let none_left : sub32 room room ≡ 0 = omega arith in
    let footer : add32 (add32 pos 12) size ≡ pos + room - 8 = omega arith in
    rw (none_left, footer) refl

-- a hole that is split
pub put_block_split :
    (pos room size new : ℕ) (h : Heap)
    → size + 20 ≡ new
    → new + 20 ≤ room
    → pos + room < 2 ^ 31
    → pos + room ≤ h.end_address
    → put_block pos room size new h
      ≡ insert_index
          (pos + new)
          (record h { memory = put_tile (pos + new) 1 (room - new) (put_tile pos 0 new h.memory) })
unfolding put_block
put_block_split pos room size new h fits left low high =
    let footer : add32 (add32 pos 12) size ≡ pos + new - 8 = omega arith in
    let rest : sub32 room new ≡ room - new = omega arith in
    let some_left : (room - new == 0) ≡ false = ground arith in
    let hole : add32 (pos + new - 8) 8 ≡ pos + new = omega arith in
    let end : sub32 (add32 (pos + new) (room - new)) 8 ≡ pos + new + (room - new) - 8 =
      omega arith in
    let inside : ltb (pos + new + (room - new) - 8) h.end_address ≡ true = ground arith in
    rw (footer, rest, some_left, hole, end, inside) refl

-- the tiles that take the place of a hole
abbrev pub taken : ℕ → ℕ → List Tile
taken room new = if room == new then [] else (record { size = room - new; hole = 1 }) ∷ []

module _ (m : Bytes) (pos room new : ℕ) (ys : List Tile) (big : 20 ≤ new)
    (low : pos + room < 2 ^ 31) where
  -- one block, and what was behind
  pub Tiled-whole :
      Tiled m (pos + room) ys
      → room ≡ new
      → Tiled (put_tile pos 0 room m) pos ((record { size = room; hole = 0 }) ∷ ys)
  Tiled-whole behind e =
      let m' = put_tile pos 0 room m in
      let (header, footer) = put_tile_lem pos 0 room m (omega arith) (omega arith) (omega arith) in
      (
        omega arith,
        omega arith,
        header,
        Ends-Footer m' pos (record { size = room; hole = 0 }) ys footer,
        Tiled-Same m m' (pos + room) ys
            (λ b l k. put_tile-Apart pos 0 room m b (omega arith) (inr l)) behind,
      )

  pub Tiled-split :
      Tiled m (pos + room) ys
      → new + 20 ≤ room
      → Tiled
          (put_tile (pos + new) 1 (room - new) (put_tile pos 0 new m))
          pos
          ((record { size = new; hole = 0 }) ∷ (record { size = room - new; hole = 1 }) ∷ ys)
  Tiled-split behind left =
      let rest = room - new in
      let m1 = put_tile pos 0 new m in
      let m2 = put_tile (pos + new) 1 rest m1 in
      let (header, footer) = put_tile_lem pos 0 new m big (omega arith) (omega arith) in
      let (header2, footer2) =
        put_tile_lem (pos + new) 1 rest m1 (omega arith) (omega arith) (omega arith) in
      (
        big,
        omega arith,
        Header-Same m1 m2 pos new 0
            (λ b l k. put_tile-Apart (pos + new) 1 rest m1 b (omega arith) (inl (omega arith)))
            header,
        Footer-Same m1 m2 pos new (omega arith)
            (λ b l k. put_tile-Apart (pos + new) 1 rest m1 b (omega arith) (inl (omega arith)))
            footer,
        (
          omega arith,
          omega arith,
          header2,
          Ends-Footer m2 (pos + new) (record { size = rest; hole = 1 }) ys footer2,
          subst (λ a. Tiled m2 a ys) (omega arith)
              (Tiled-Same m m2 (pos + room) ys
                (λ b l k.
                  put_tile-Apart (pos + new) 1 rest m1 b (omega arith) (inr (omega arith))
                  ∙ put_tile-Apart pos 0 new m b big (inr (omega arith)))
                behind),
        ),
      )
