-- ===== src/Mem/Frames/Bitmap.antt =====
-- What set_frame, clear_frame and test_frame do to the bits of the bitmap.
use ogos.Prelude.{ℕ, ◌/◌, ◌%◌, ◌^◌, ◌<◌, ◌≡◌, bit_and, bit_or, arith, ◌==◌, if◌then◌else◌}
use ogos.Prelude.Bits.{
  test_bit, test_bit-lt, test_bit-bit_and, test_bit-bit_or, test_bit-pow_self, test_bit-pow_ne,
  complement, test_bit-complement, bit_and-pow, pow-lt_pow, pow_pos,
}
use ogos.Mem.Frames.{Frames, set_frame, clear_frame, test_frame, write_word}

-- 1 if frame f is in use.
abbrev pub used : Frames → ℕ → ℕ
used fr f = test_bit (fr.words (f / 32)) (f % 32)

-- `word |= 1 << a` and `word &= ~(1 << a)`, bit by bit.
test_bit-set : (w a b : ℕ) → test_bit (bit_or w (2 ^ a)) b ≡ (if a == b then 1 else test_bit w b)
test_bit-set w a b =
    ground (
      arith,
      test_bit-bit_or w (2 ^ a) b,
      test_bit-lt w b,
      test_bit-pow_self b,
      test_bit-pow_ne a b,
    )

test_bit-clear :
    (w a b : ℕ)
    → a < 32
    → b < 32
    → test_bit (bit_and w (complement 32 (2 ^ a))) b ≡ (if a == b then 0 else test_bit w b)
test_bit-clear w a b ha hb = ground (
  arith,
  test_bit-bit_and w (complement 32 (2 ^ a)) b,
  test_bit-complement 32 (2 ^ a) b (pow-lt_pow a 32 ha) hb,
  test_bit-lt w b,
  test_bit-pow_self b,
  test_bit-pow_ne a b,
)

-- Frame g of a bitmap whose word for frame f is rewritten at bit `f % 32` only.
used-write_word :
    (words : ℕ → ℕ) (f g new v : ℕ)
    → test_bit new (g % 32) ≡ (if f % 32 == g % 32 then v else test_bit (words (f / 32)) (g % 32))
    → test_bit (write_word words (f / 32) new (g / 32)) (g % 32)
      ≡ (if f == g then v else test_bit (words (g / 32)) (g % 32))
used-write_word words f g new v h = ground arith

pub used-set_frame :
    (fr : Frames) (a f : ℕ) → used (set_frame fr a) f ≡ (if a / 0x1000 == f then 1 else used fr f)
unfolding set_frame
used-set_frame fr a f =
    used-write_word fr.words (a / 0x1000) f _ 1
      (test_bit-set (fr.words (a / 0x1000 / 32)) (a / 0x1000 % 32) (f % 32))

pub used-clear_frame :
    (fr : Frames) (a f : ℕ) → used (clear_frame fr a) f ≡ (if a / 0x1000 == f then 0 else used fr f)
unfolding clear_frame
used-clear_frame fr a f = used-write_word fr.words (a / 0x1000) f _ 0 (
    test_bit-clear (fr.words (a / 0x1000 / 32)) (a / 0x1000 % 32) (f % 32) (omega arith)
      (omega arith))

-- `test_frame` is non-zero exactly for a frame in use.
pub test_frame-used : (fr : Frames) (a : ℕ) → (test_frame fr a == 0) ≡ (used fr (a / 0x1000) == 0)
unfolding test_frame
test_frame-used fr a = rw (bit_and-pow (fr.words (a / 0x1000 / 32)) (a / 0x1000 % 32)) (
    grind (
      arith,
      test_bit-lt (fr.words (a / 0x1000 / 32)) (a / 0x1000 % 32),
      pow_pos (a / 0x1000 % 32),
    ))
