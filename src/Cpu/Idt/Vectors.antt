-- ===== src/Cpu/Idt/Vectors.antt =====
-- Which stub each vector leads to.
use ogos.Prelude.{
  ℕ, zero, suc, ◌+◌, ◌-◌, ◌*◌, ◌/◌, ◌^◌, ◌<◌, ◌≤◌, ◌≡◌, ◌≢◌, refl, ap, sym, ◌∙◌, true, false, ◌||◌,
  arith, ◌==◌, ltb, leb, Bool-cases, inl, inr, subst, Option, some, none, if◌then◌else◌,
}
use ogos.Prelude.Bits.{bit_and-mask}
use ogos.Cpu.Idt.{IdtEntry, Idt, idt_set_entry, set_stubs, no_entry, init_idt, init_irq_entries}

-- the address that the processor goes to, as it puts it together
abbrev pub handler_of : IdtEntry → ℕ
handler_of e = e.base_low + e.base_high * 2 ^ 16

set_entry-same :
    (v base selector flags : ℕ) (t : Idt)
    → base < 2 ^ 32
    → (handler_of ((idt_set_entry v base selector flags t).idt_entries v) ≡ base)
      × (((idt_set_entry v base selector flags t).idt_entries v).selector ≡ selector)
      × (((idt_set_entry v base selector flags t).idt_entries v).flags ≡ flags)
unfolding idt_set_entry
set_entry-same v base selector flags t h =
    let same : (v == v) ≡ true = ground arith in
    let low = bit_and-mask base 16 in
    let high = bit_and-mask (base / 2 ^ 16) 16 in
    (rw same (omega arith), rw same refl, rw same refl)

set_entry-other :
    (v w base selector flags : ℕ) (t : Idt)
    → v ≢ w
    → (idt_set_entry v base selector flags t).idt_entries w ≡ t.idt_entries w
unfolding idt_set_entry
set_entry-other v w base selector flags t h =
    let apart : (v == w) ≡ false = ground arith in rw apart refl

set_stubs-outside :
    (n from v : ℕ) (stub : ℕ → ℕ) (t : Idt)
    → (ltb v from || leb (from + n) v) ≡ true
    → (set_stubs stub from n t).idt_entries v ≡ t.idt_entries v
unfolding set_stubs
set_stubs-outside zero from v stub t h = refl
set_stubs-outside (suc n) from v stub t h =
    set_stubs-outside n (suc from) v stub (idt_set_entry from (stub from) 0x08 0x8E t)
      (ground arith)
    ∙ set_entry-other from v (stub from) 0x08 0x8E t (ground arith)

-- an interrupt gate of the kernel's code segment for an address
abbrev pub IsGate : ℕ → IdtEntry → Type 0
IsGate address e = (handler_of e ≡ address) × (e.selector ≡ 0x08) × (e.flags ≡ 0x8E)

set_stubs-inside :
    (n from v : ℕ) (stub : ℕ → ℕ) (t : Idt)
    → from ≤ v
    → v < from + n
    → stub v < 2 ^ 32
    → IsGate (stub v) ((set_stubs stub from n t).idt_entries v)
unfolding set_stubs
set_stubs-inside zero from v stub t low high h = absurd (omega arith)
set_stubs-inside (suc n) from v stub t low high h = elim (Bool-cases (from == v)) [
  | inl here ↦
      let at : from ≡ v = ground arith in
      let entry = set_entry-same v (stub v) 0x08 0x8E t h in
      subst (IsGate (stub v))
        (sym (
          set_stubs-outside n (suc from) v stub (idt_set_entry from (stub from) 0x08 0x8E t)
            (ground arith)
          ∙ ap (λ w. (idt_set_entry w (stub w) 0x08 0x8E t).idt_entries v) at))
        entry
  | inr later ↦
      set_stubs-inside n (suc from) v stub (idt_set_entry from (stub from) 0x08 0x8E t)
        (ground arith) (omega arith) h
]

-- what an entry must be for a stub, or for none
abbrev pub Leads : Option ℕ → IdtEntry → Type 0
Leads (some address) e = IsGate address e
Leads none e = e ≡ no_entry

-- the stub of a vector: an exception's, a system call's or a device's
abbrev pub stub_of : (ℕ → ℕ) → (ℕ → ℕ) → ℕ → Option ℕ
stub_of isr irq v =
    if ltb v 32 || (v == 48) then some (isr v) else if ltb v 48 then some (irq (v - 32)) else none

-- Once the exceptions' and the devices' entries are made, each vector leads to its own stub
-- through a gate of the kernel, and the vectors without a stub have empty entries.
pub idt-stubs :
    (address v : ℕ) (isr irq : ℕ → ℕ) (t : Idt)
    → ((w : ℕ) → isr w < 2 ^ 32)
    → ((w : ℕ) → irq w < 2 ^ 32)
    → Leads (stub_of isr irq v) ((init_irq_entries irq (init_idt address isr t)).idt_entries v)
unfolding init_idt init_irq_entries
idt-stubs address v isr irq t h_isr h_irq =
    let stub : ℕ → ℕ = λ w. irq (w - 32) in
    let t0 : Idt = record { idt_entries = λ _. no_entry; limit = 8 * 256 - 1; base = address } in
    let t1 = set_stubs isr 0 32 t0 in
    let t2 = idt_set_entry 48 (isr 48) 0x08 0x8E t1 in
    elim (Bool-cases (ltb v 32)) [
      | inl exception ↦
          let here : stub_of isr irq v ≡ some (isr v) = rw exception refl in
          let e =
            set_stubs-outside 16 32 v stub t2 (ground arith)
            ∙ set_entry-other 48 v (isr 48) 0x08 0x8E t1 (ground arith) in
          rw here (
            subst (IsGate (isr v)) (sym e)
              (set_stubs-inside 32 0 v isr t0 (omega arith) (ground arith) (h_isr v)))
      | inr above ↦ elim (Bool-cases (ltb v 48)) [
        | inl device ↦
            let not_call : (v == 48) ≡ false = ground arith in
            let here : stub_of isr irq v ≡ some (irq (v - 32)) =
              rw (above, not_call, device) refl in
            rw here
              (set_stubs-inside 16 32 v stub t2 (ground arith) (ground arith) (h_irq (v - 32)))
        | inr high ↦ elim (Bool-cases (v == 48)) [
          | inl call ↦
              let at : v ≡ 48 = ground arith in
              let here : stub_of isr irq v ≡ some (isr v) = rw (above, call) refl in
              let e =
                set_stubs-outside 16 32 v stub t2 (ground arith)
                ∙ ap (λ w. (idt_set_entry w (isr w) 0x08 0x8E t1).idt_entries v) (sym at) in
              rw here
                (subst (IsGate (isr v)) (sym e) (set_entry-same v (isr v) 0x08 0x8E t1 (h_isr v)))
          | inr spare ↦
              let here : stub_of isr irq v ≡ none = rw (above, spare, high) refl in
              let e =
                set_stubs-outside 16 32 v stub t2 (ground arith)
                ∙ set_entry-other 48 v (isr 48) 0x08 0x8E t1 (ground arith)
                ∙ set_stubs-outside 32 0 v isr t0 (ground arith) in
              rw here e
        ]
      ]
    ]
