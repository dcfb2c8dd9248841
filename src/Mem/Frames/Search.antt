-- ===== src/Mem/Frames/Search.antt =====
-- `first_frame` finds the lowest free frame.
use ogos.Prelude.{
  ℕ, zero, suc, ◌+◌, ◌-◌, ◌*◌, ◌/◌, ◌%◌, ◌^◌, ◌<◌, ◌≤◌, ◌≡◌, ◌∙◌, refl, inl, inr, bit_and, Option,
  none, some, arith, ◌==◌, Bool-cases, true, false,
}
use ogos.Prelude.Bits.{
  test_bit, test_bit-lt, bit_and-pow, pow_pos, test_bit-zero, test_bit-complement,
}
use ogos.Mem.Frames.{Frames, first_bit, first_word, first_frame}
use ogos.Mem.Frames.Bitmap.{used}

-- `r` is the least i from lo up to hi whose bit is 0, or `none` if all are 1.
abbrev pub Least : (ℕ → ℕ) → ℕ → ℕ → Option ℕ → Type 0
Least bit lo hi none = (i : ℕ) → lo ≤ i → i < hi → bit i ≡ 1
Least bit lo hi (some k) =
    (lo ≤ k) × (k < hi) × (bit k ≡ 0) × ((i : ℕ) → lo ≤ i → i < k → bit i ≡ 1)

-- A range of ones in front changes nothing.
Least-skip :
    (bit : ℕ → ℕ) (lo mid hi : ℕ) (r : Option ℕ)
    → lo ≤ mid
    → ((i : ℕ) → lo ≤ i → i < mid → bit i ≡ 1)
    → Least bit mid hi r
    → Least bit lo hi r
Least-skip bit lo mid hi none le ones h = λ i p q. ground (arith, ones i, h i)
Least-skip bit lo mid hi (some k) le ones h =
    (omega arith, h.1, h.2, λ i p q. ground (arith, ones i, h.3 i))

bit_free : (w j : ℕ) → (bit_and w (2 ^ j) == 0) ≡ true → test_bit w j ≡ 0
bit_free w j h = grind (arith, bit_and-pow w j, test_bit-lt w j, pow_pos j)

bit_taken : (w j : ℕ) → (bit_and w (2 ^ j) == 0) ≡ false → test_bit w j ≡ 1
bit_taken w j h = grind (arith, bit_and-pow w j, test_bit-lt w j)

first_bit-Least : (n j w hi : ℕ) → j + n ≡ hi → Least (test_bit w) j hi (first_bit n j w)
unfolding first_bit
first_bit-Least zero j w hi e = λ i p q. absurd (omega arith)
first_bit-Least (suc n) j w hi e = elim (Bool-cases (bit_and w (2 ^ j) == 0)) [
  | inl free ↦ rw free (omega arith, omega arith, bit_free w j free, λ i p q. absurd (omega arith))
  | inr taken ↦ rw taken (
      Least-skip (test_bit w) j (j + 1) hi _ (omega arith)
        (λ i p q. ground (arith, bit_taken w j taken))
        (first_bit-Least n (j + 1) w hi (omega arith)))
]

-- Word i of the bitmap holds the frames from 32 i on.
used-word : (fr : Frames) (i k : ℕ) → k < 32 → used fr (i * 32 + k) ≡ test_bit (fr.words i) k
used-word fr i k h =
    let q : (i * 32 + k) / 32 ≡ i = omega arith in
    let r : (i * 32 + k) % 32 ≡ k = omega arith in rw (q, r)

full-used :
    (fr : Frames) (i f : ℕ)
    → fr.words i ≡ 0xFFFF_FFFF
    → i * 32 ≤ f
    → f < i * 32 + 32
    → used fr f ≡ 1
full-used fr i f full p q =
    let e : f / 32 ≡ i = omega arith in
    rw (e, full)
      (omega (
        arith,
        test_bit-zero (f % 32),
        test_bit-complement 32 0 (f % 32) (omega arith) (omega arith),
      ))

-- The search of word i, continued by the search of the words behind it.
word-Least :
    (fr : Frames) (i hi : ℕ) (o rest : Option ℕ)
    → i * 32 + 32 ≤ hi
    → Least (test_bit (fr.words i)) 0 32 o
    → Least (used fr) ((i + 1) * 32) hi rest
    → Least (used fr) (i * 32) hi (elim o [ some j ↦ some (i * 4 * 8 + j) | none ↦ rest ])
word-Least fr i hi none rest le ones h =
    Least-skip (used fr) (i * 32) ((i + 1) * 32) hi rest (omega arith)
      (λ f p q.
        let e : f ≡ i * 32 + (f - i * 32) = omega arith in
        rw e (
          used-word fr i (f - i * 32) (omega arith)
          ∙ ones (f - i * 32) (omega arith) (omega arith)))
      h
word-Least fr i hi (some j) rest le (lo, lt, free, below) h =
    let e : i * 4 * 8 + j ≡ i * 32 + j = omega arith in
    (
      omega arith,
      omega arith,
      rw e (used-word fr i j lt ∙ free),
      λ f p q.
          let e' : f ≡ i * 32 + (f - i * 32) = omega arith in
          rw e' (
            used-word fr i (f - i * 32) (omega arith)
            ∙ below (f - i * 32) (omega arith) (omega arith)),
    )

first_word-Least :
    (n i : ℕ) (fr : Frames) (hi : ℕ)
    → (i + n) * 32 ≡ hi
    → Least (used fr) (i * 32) hi (first_word n i fr)
unfolding first_word
first_word-Least zero i fr hi e = λ i p q. absurd (omega arith)
first_word-Least (suc n) i fr hi e =
    let later = first_word-Least n (i + 1) fr hi (omega arith) in
    elim (Bool-cases (fr.words i == 0xFFFF_FFFF)) [
      | inl full ↦ rw full (
          Least-skip (used fr) (i * 32) ((i + 1) * 32) hi _ (omega arith)
            (λ f p q. full-used fr i f (ground arith) p (omega arith)) later)
      | inr some_free ↦
          rw some_free
            (word-Least fr i hi _ _ (omega arith) (first_bit-Least 32 0 (fr.words i) 32 refl) later)
    ]

-- `first_frame` returns the lowest free frame among the `nframes / 32 * 32` frames that the
-- bitmap covers by whole words, and ends without a `return` only if all of them are in use.
pub first_frame-Least : (fr : Frames) → Least (used fr) 0 (fr.nframes / 32 * 32) (first_frame fr)
unfolding first_frame
first_frame-Least fr = first_word-Least (fr.nframes / 32) 0 fr _ (omega arith)
