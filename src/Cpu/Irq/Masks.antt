-- ===== src/Cpu/Irq/Masks.antt =====
-- Hiding and showing interrupts.
use ogos.Prelude.{
  ℕ, ◌^◌, ◌<◌, ◌≡◌, ◌≢◌, refl, ap, sym, ◌∙◌, List, ◌∷◌, arith, bit_and, bit_or, ◌==◌, if◌then◌else◌,
  Bool-cases, inl, inr, min, max, ◌%◌,
}
use ogos.Prelude.Words.{u16}
use ogos.Prelude.Bits.{
  test_bit, test_bit-mod, test_bit-lt, test_bit-complement, complement, pow-lt_pow, test_bit-bit_or,
  test_bit-bit_and, test_bit-pow_self, test_bit-pow_ne,
}
use ogos.Cpu.Irq.{Irq, outportb, irq_mask, irq_unmask, pic_data}

module _ (inports : List (ℕ × ℕ) → ℕ → ℕ) where
  -- the mask that the controller of an interrupt gives
  abbrev pub mask_of : ℕ → Irq → ℕ
  mask_of irq m = u16 (inports m.ports (pic_data irq).0)

  -- Masking writes to the interrupt's own controller the mask that it gave, with the bit of the
  -- interrupt set and the other bits as they were.
  pub irq_mask-hides :
      (irq k : ℕ) (m : Irq)
      → irq < 16
      → k < 16
      → k ≢ (pic_data irq).1
      → (v : ℕ) × ((irq_mask inports irq m).ports ≡ ((pic_data irq).0, v) ∷ m.ports)
        × (test_bit v (pic_data irq).1 ≡ 1)
        × (test_bit v k ≡ test_bit (mask_of irq m) k)
  unfolding irq_mask outportb pic_data
  irq_mask-hides irq k m hi hk other =
      let place = (pic_data irq).1 in
      let old = mask_of irq m in
      let small : place < 16 = ground arith in
      let at : (j : ℕ)
          → j < 16
          → test_bit (u16 (bit_or old (2 ^ place))) j
            ≡ max (test_bit old j) (test_bit (2 ^ place) j) =
        λ j h. test_bit-mod (bit_or old (2 ^ place)) 16 j h ∙ test_bit-bit_or old (2 ^ place) j in
      (
        u16 (bit_or old (2 ^ place)),
        refl,
        at place small ∙ omega (arith, test_bit-pow_self place, test_bit-lt old place),
        at k hk ∙ omega (arith, test_bit-pow_ne place k (λ e. other (sym e))),
      )

  -- Unmasking clears the bit whose number is the mask itself, modulo 32, and no other, whatever
  -- the interrupt's place in the mask is.
  pub irq_unmask-clears :
      (irq k : ℕ) (m : Irq)
      → k < 16
      → (v : ℕ) × ((irq_unmask inports irq m).ports ≡ ((pic_data irq).0, v) ∷ m.ports)
        × (test_bit v k ≡ (if k == mask_of irq m % 32 then 0 else test_bit (mask_of irq m) k))
  unfolding irq_unmask outportb pic_data
  irq_unmask-clears irq k m hk =
      let old = mask_of irq m in
      let n = old % 32 in
      let small : 2 ^ n < 2 ^ 32 = pow-lt_pow n 32 (omega arith) in
      let at =
        test_bit-mod (bit_and old (complement 32 (2 ^ n))) 16 k hk
        ∙ test_bit-bit_and old (complement 32 (2 ^ n)) k
        ∙ ap (λ b. min (test_bit old k) b) (test_bit-complement 32 (2 ^ n) k small (omega arith)) in
      (
        u16 (bit_and old (complement 32 (2 ^ n))),
        refl,
        elim (Bool-cases (k == n)) [
          | inl same ↦
              let e : n ≡ k = ground arith in
              rw same (at ∙ omega (arith, ap (λ i. test_bit (2 ^ i) k) e, test_bit-pow_self k))
          | inr apart ↦
              rw apart (at ∙ omega (arith, test_bit-pow_ne n k (ground arith), test_bit-lt old k))
        ],
      )
