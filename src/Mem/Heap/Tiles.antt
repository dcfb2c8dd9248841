-- ===== src/Mem/Heap/Tiles.antt =====
-- The heap as a list of tiles, blocks and holes, that lie one behind the other.
use ogos.Prelude.{
  ℕ, ◌+◌, ◌-◌, ◌^◌, ◌<◌, ◌≤◌, ◌≡◌, inl, inr, refl, ap, subst, ◌∙◌, Bool-cases, false, arith, ◌==◌,
  if◌then◌else◌, List, [], ◌∷◌, ◌++◌,
}
use ogos.Mem.OrderedArray.Contents.{contents}
use ogos.Mem.OrderedArray.Counts.{count}
use ogos.Mem.Heap.{Bytes, Heap, set_header, set_footer}
use ogos.Mem.Heap.Words.{
  Header, Footer, Same, Apart, Header-Same, Footer-Same, set_header-Apart, set_footer-Apart,
  set_header-Header, set_footer-Footer,
}

-- the size of a tile, and 1 for a hole, 0 for a block
pub record Tile : Type 0 where
  pub size : ℕ
  pub hole : ℕ

abbrev pub total : List Tile → ℕ
total [] = 0
total (t ∷ ts) = t.size + total ts

-- The last tile needs no footer if it is a hole: the first hole of a heap gets none.
abbrev pub Ends : Bytes → ℕ → Tile → List Tile → Type 0
Ends m a t [] = t.hole ≡ 0 → Footer m a t.size
Ends m a t (u ∷ ts) = Footer m a t.size

-- The tiles from a on, each with its header and its footer.
abbrev pub Tiled : Bytes → ℕ → List Tile → Type 0
Tiled m a [] = Unit
Tiled m a (t ∷ ts) =
    (20 ≤ t.size)
    × (t.hole ≤ 1)
    × Header m a t.size t.hole
    × Ends m a t ts
    × Tiled m (a + t.size) ts

-- the addresses of the holes
abbrev pub holes : ℕ → List Tile → List ℕ
holes a [] = []
holes a (t ∷ ts) = if t.hole == 0 then holes (a + t.size) ts else a ∷ holes (a + t.size) ts

-- The tiles fill the heap, and the index holds the address of each hole once and no other.
pub record IsHeap (h : Heap) (ts : List Tile) : Type 0 where
  pub tiled : Tiled h.memory h.start_address ts
  pub filled : h.start_address + total ts ≡ h.end_address
  pub indexed : (x : ℕ) → count x (contents h.index) ≡ count x (holes h.start_address ts)
  pub below : h.end_address < 2 ^ 31
  pub few : h.index.size + 1 < 2 ^ 32

Ends-Same :
    (m m' : Bytes) (a : ℕ) (t : Tile) (ts : List Tile)
    → 8 ≤ t.size
    → Same m m' a t.size
    → Ends m a t ts
    → Ends m' a t ts
Ends-Same m m' a t [] big same e = λ block.
    Footer-Same m m' a t.size big (λ b low high. same b (omega arith) (omega arith)) (e block)
Ends-Same m m' a t (u ∷ ts) big same e =
    Footer-Same m m' a t.size big (λ b low high. same b (omega arith) (omega arith)) e

pub Tiled-Same :
    (m m' : Bytes) (a : ℕ) (ts : List Tile) → Same m m' a (total ts) → Tiled m a ts → Tiled m' a ts
Tiled-Same m m' a [] same tiled = tt
Tiled-Same m m' a (t ∷ ts) same (big, flag, header, ends, rest) = (
  big,
  flag,
  Header-Same m m' a t.size t.hole (λ b low high. same b low (omega arith)) header,
  Ends-Same m m' a t ts (omega arith) (λ b low high. same b low (omega arith)) ends,
  Tiled-Same m m' (a + t.size) ts (λ b low high. same b (omega arith) (omega arith)) rest,
)

pub total-append : (xs ys : List Tile) → total (xs ++ ys) ≡ total xs + total ys
total-append [] ys = omega arith
total-append (t ∷ xs) ys = omega (arith, total-append xs ys)

pub holes-append :
    (a : ℕ) (xs ys : List Tile) → holes a (xs ++ ys) ≡ holes a xs ++ holes (a + total xs) ys
holes-append a [] ys = ap (λ b. holes b ys) (omega arith)
holes-append a (t ∷ xs) ys =
    let rest =
      holes-append (a + t.size) xs ys
      ∙ ap (λ b. holes (a + t.size) xs ++ holes b ys) (omega arith) in
    elim (Bool-cases (t.hole == 0)) [
      | inl block ↦ rw (block, rest) refl
      | inr free ↦ rw (free, rest) refl
    ]

-- A list of tiles around one hole, whose address is p.
pub record Around (a p : ℕ) (ts : List Tile) : Type 0 where
  pub before : List Tile
  pub tile : Tile
  pub behind : List Tile
  pub free : (tile.hole == 0) ≡ false
  pub at : p ≡ a + total before
  pub all : ts ≡ before ++ tile ∷ behind

Around-cons : (a p : ℕ) (t : Tile) (ts : List Tile) → Around (a + t.size) p ts → Around a p (t ∷ ts)
Around-cons a p t ts r = record {
  before = t ∷ r.before;
  tile = r.tile;
  behind = r.behind;
  free = r.free;
  at = r.at ∙ omega arith;
  all = ap (λ us. t ∷ us) r.all;
}

-- An address among those of the holes is the one of a hole.
pub holes-Around : (a p : ℕ) (ts : List Tile) → 1 ≤ count p (holes a ts) → Around a p ts
holes-Around a p [] h = elim h [ ]
holes-Around a p (t ∷ ts) h = elim (Bool-cases (t.hole == 0)) [
  | inl block ↦ Around-cons a p t ts (holes-Around (a + t.size) p ts (rw block at h))
  | inr free ↦
      let h' = rw free at h in
      elim (Bool-cases (p == a)) [
        | inl here ↦ record {
          before = [];
          tile = t;
          behind = ts;
          free = free;
          at = ground arith;
          all = refl;
        }
        | inr later ↦
            let h'' = rw later at h' in
            Around-cons a p t ts (holes-Around (a + t.size) p ts (omega arith))
      ]
]

-- The tiles from one of them on.
pub Tiled-behind :
    (m : Bytes) (a : ℕ) (xs ys : List Tile) → Tiled m a (xs ++ ys) → Tiled m (a + total xs) ys
Tiled-behind m a [] ys tiled = subst (λ b. Tiled m b ys) (omega arith) tiled
Tiled-behind m a (t ∷ xs) ys (big, flag, header, ends, rest) =
    subst (λ b. Tiled m b ys) (omega arith) (Tiled-behind m (a + t.size) xs ys rest)

Ends-replaced :
    (m m' : Bytes) (a : ℕ) (x t z : Tile) (xs ys zs : List Tile)
    → Ends m a x (xs ++ t ∷ ys)
    → 8 ≤ x.size
    → Same m m' a x.size
    → Ends m' a x (xs ++ z ∷ zs)
Ends-replaced m m' a x t z [] ys zs e big same = Ends-Same m m' a x (t ∷ ys) big same e
Ends-replaced m m' a x t z (y ∷ xs) ys zs e big same = Ends-Same m m' a x (t ∷ ys) big same e

-- Other tiles in the place of the ones from one of them on.
pub Tiled-replaced :
    (m m' : Bytes) (a : ℕ) (xs ys zs : List Tile) (t z : Tile)
    → Tiled m a (xs ++ t ∷ ys)
    → Same m m' a (total xs)
    → Tiled m' (a + total xs) (z ∷ zs)
    → Tiled m' a (xs ++ z ∷ zs)
Tiled-replaced m m' a [] ys zs t z tiled same new =
    subst (λ b. Tiled m' b (z ∷ zs)) (omega arith) new
Tiled-replaced m m' a (x ∷ xs) ys zs t z (big, flag, header, ends, rest) same new = (
  big,
  flag,
  Header-Same m m' a x.size x.hole (λ b low high. same b low (omega arith)) header,
  Ends-replaced m m' a x t z xs ys zs ends (omega arith) (λ b low high. same b low (omega arith)),
  Tiled-replaced m m' (a + x.size) xs ys zs t z rest
      (λ b low high. same b (omega arith) (omega arith))
      (subst (λ b. Tiled m' b (z ∷ zs)) (omega arith) new),
)

pub Ends-Footer :
    (m : Bytes) (a : ℕ) (t : Tile) (ts : List Tile) → Footer m a t.size → Ends m a t ts
Ends-Footer m a t [] f = λ block. f
Ends-Footer m a t (u ∷ ts) f = f

-- The memory with a tile of n bytes at a.
abbrev pub put_tile : ℕ → ℕ → ℕ → Bytes → Bytes
put_tile a hole n m = set_footer (a + n - 8) a (set_header a hole n m)

pub put_tile-Apart :
    (a hole n : ℕ) (m : Bytes) (b : ℕ) → 20 ≤ n → Apart a n b → put_tile a hole n m b ≡ m b
put_tile-Apart a hole n m b big apart =
    set_footer-Apart (a + n - 8) a (set_header a hole n m) b (ground arith)
    ∙ set_header-Apart a hole n m b (ground arith)

pub put_tile_lem :
    (a hole n : ℕ) (m : Bytes)
    → 20 ≤ n
    → hole ≤ 1
    → a + n < 2 ^ 32
    → Header (put_tile a hole n m) a n hole × Footer (put_tile a hole n m) a n
put_tile_lem a hole n m big flag room =
    let m1 = set_header a hole n m in
    (
      Header-Same m1 (put_tile a hole n m) a n hole
          (λ b low high. set_footer-Apart (a + n - 8) a m1 b (inl (omega arith)))
          (set_header-Header a hole n m (omega arith) (omega arith)),
      set_footer-Footer (a + n - 8) a n m1 (omega arith) (omega arith),
    )
