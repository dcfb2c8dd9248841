-- ===== src/Mem/Heap/Words.antt =====
-- Words, headers and footers in memory.
use ogos.Prelude.{ℕ, ◌+◌, ◌-◌, ◌^◌, ◌<◌, ◌≤◌, ◌≡◌, ◌⊎◌, ◌∙◌, arith}
use ogos.Mem.Heap.{
  Bytes, load32, store32, store8, heap_magic, magic_of, is_hole_of, size_of, header_of, set_header,
  set_footer,
}

pub load32-store32 : (m : Bytes) (a v : ℕ) → v < 2 ^ 32 → load32 (store32 m a v) a ≡ v
unfolding load32 store32
load32-store32 m a v h = ground arith

-- a byte outside the n from a on
abbrev pub Apart : ℕ → ℕ → ℕ → Type 0
Apart a n b = (b < a) ⊎ (a + n ≤ b)

pub store32-Apart : (m : Bytes) (a v b : ℕ) → Apart a 4 b → store32 m a v b ≡ m b
unfolding store32
store32-Apart m a v b h = ground arith

pub store8-Apart : (m : Bytes) (a v b : ℕ) → Apart a 1 b → store8 m a v b ≡ m b
unfolding store8
store8-Apart m a v b h = ground arith

-- Two memories that agree on a word's bytes.
pub load32_ext :
    (m m' : Bytes) (a : ℕ)
    → m' a ≡ m a
    → m' (a + 1) ≡ m (a + 1)
    → m' (a + 2) ≡ m (a + 2)
    → m' (a + 3) ≡ m (a + 3)
    → load32 m' a ≡ load32 m a
unfolding load32
load32_ext m m' a e0 e1 e2 e3 = omega (arith, e0, e1, e2, e3)

pub load32-store32-Apart :
    (m : Bytes) (a v b : ℕ) → (b + 4 ≤ a) ⊎ (a + 4 ≤ b) → load32 (store32 m a v) b ≡ load32 m b
load32-store32-Apart m a v b h =
    load32_ext m (store32 m a v) b (store32-Apart m a v b (ground arith))
      (store32-Apart m a v (b + 1) (ground arith)) (store32-Apart m a v (b + 2) (ground arith))
      (store32-Apart m a v (b + 3) (ground arith))

pub load32-store8-Apart :
    (m : Bytes) (a v b : ℕ) → (b + 4 ≤ a) ⊎ (a + 1 ≤ b) → load32 (store8 m a v) b ≡ load32 m b
load32-store8-Apart m a v b h =
    load32_ext m (store8 m a v) b (store8-Apart m a v b (ground arith))
      (store8-Apart m a v (b + 1) (ground arith)) (store8-Apart m a v (b + 2) (ground arith))
      (store8-Apart m a v (b + 3) (ground arith))

pub store8_at : (m : Bytes) (a v : ℕ) → v < 2 ^ 8 → store8 m a v a ≡ v
unfolding store8
store8_at m a v h = ground arith

-- Two memories that agree on n bytes from a on.
abbrev pub Same : Bytes → Bytes → ℕ → ℕ → Type 0
Same m m' a n = (b : ℕ) → a ≤ b → b < a + n → m' b ≡ m b

pub load32-Same :
    (m m' : Bytes) (a n b : ℕ) → Same m m' a n → a ≤ b → b + 4 ≤ a + n → load32 m' b ≡ load32 m b
load32-Same m m' a n b same low high =
    load32_ext m m' b (same b low (omega arith)) (same (b + 1) (omega arith) (omega arith))
      (same (b + 2) (omega arith) (omega arith)) (same (b + 3) (omega arith) (omega arith))

-- a header at a, of a block of n bytes, that says whether it is a hole
pub record Header (m : Bytes) (a n hole : ℕ) : Type 0 where
  pub magic : magic_of m a ≡ heap_magic
  pub flag : is_hole_of m a ≡ hole
  pub size : size_of m a ≡ n

-- the footer at the end of a block of n bytes at a
pub record Footer (m : Bytes) (a n : ℕ) : Type 0 where
  pub magic : magic_of m (a + n - 8) ≡ heap_magic
  pub header : header_of m (a + n - 8) ≡ a

pub set_header-Apart :
    (a hole n : ℕ) (m : Bytes) (b : ℕ) → Apart a 12 b → set_header a hole n m b ≡ m b
unfolding set_header
set_header-Apart a hole n m b h =
    store32-Apart (store8 (store32 m a heap_magic) (a + 4) hole) (a + 8) n b (ground arith)
    ∙ store8-Apart (store32 m a heap_magic) (a + 4) hole b (ground arith)
    ∙ store32-Apart m a heap_magic b (ground arith)

pub set_footer-Apart : (f a : ℕ) (m : Bytes) (b : ℕ) → Apart f 8 b → set_footer f a m b ≡ m b
unfolding set_footer
set_footer-Apart f a m b h =
    store32-Apart (store32 m f heap_magic) (f + 4) a b (ground arith)
    ∙ store32-Apart m f heap_magic b (ground arith)

pub set_header-Header :
    (a hole n : ℕ) (m : Bytes) → hole < 2 ^ 8 → n < 2 ^ 32 → Header (set_header a hole n m) a n hole
unfolding set_header
set_header-Header a hole n m hh hn =
    let m1 = store32 m a heap_magic in
    let m2 = store8 m1 (a + 4) hole in
    record {
      magic =
          load32-store32-Apart m2 (a + 8) n a (ground arith)
          ∙ load32-store8-Apart m1 (a + 4) hole a (ground arith)
          ∙ load32-store32 m a heap_magic (omega arith);
      flag = store32-Apart m2 (a + 8) n (a + 4) (ground arith) ∙ store8_at m1 (a + 4) hole hh;
      size = load32-store32 m2 (a + 8) n hn;
    }

pub set_footer-Footer :
    (f a n : ℕ) (m : Bytes) → a + n ≡ f + 8 → a < 2 ^ 32 → Footer (set_footer f a m) a n
unfolding set_footer
set_footer-Footer f a n m e ha =
    let at : a + n - 8 ≡ f = omega arith in
    let m1 = store32 m f heap_magic in
    record {
      magic = rw at (
          load32-store32-Apart m1 (f + 4) a f (ground arith)
          ∙ load32-store32 m f heap_magic (omega arith));
      header = rw at (load32-store32 m1 (f + 4) a ha);
    }

-- A header and a footer stay where their bytes do.
pub Header-Same :
    (m m' : Bytes) (a n hole : ℕ) → Same m m' a 12 → Header m a n hole → Header m' a n hole
Header-Same m m' a n hole same h = record {
  magic = load32-Same m m' a 12 a same (omega arith) (omega arith) ∙ h.magic;
  flag = same (a + 4) (omega arith) (omega arith) ∙ h.flag;
  size = load32-Same m m' a 12 (a + 8) same (omega arith) (omega arith) ∙ h.size;
}

pub Footer-Same :
    (m m' : Bytes) (a n : ℕ) → 8 ≤ n → Same m m' (a + n - 8) 8 → Footer m a n → Footer m' a n
Footer-Same m m' a n big same f =
    let at = a + n - 8 in
    record {
      magic = load32-Same m m' at 8 at same (omega arith) (omega arith) ∙ f.magic;
      header = load32-Same m m' at 8 (at + 4) same (omega arith) (omega arith) ∙ f.header;
    }
