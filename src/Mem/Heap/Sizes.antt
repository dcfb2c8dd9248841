-- ===== src/Mem/Heap/Sizes.antt =====
-- The sizes that `expand` and `contract` go to.
use ogos.Prelude.{
  ℕ, zero, suc, ◌+◌, ◌-◌, ◌*◌, ◌/◌, ◌%◌, ◌^◌, ◌<◌, ◌≤◌, ◌≡◌, refl, ap, ◌∙◌, arith, ltb, List, ◌∷◌,
  bit_and, Bool-cases, inl, inr, true, false,
}
use ogos.Prelude.Words.{add32, sub32}
use ogos.Prelude.Bits.{bit_and-pow}
use ogos.Mem.Heap.{Heap, ok, PageCall, free_page, free_pages, contracted, contract}

free_pages_step :
    (k start i i' new : ℕ) (calls : List PageCall)
    → ltb new i ≡ true
    → sub32 i 0x1000 ≡ i'
    → free_pages (suc k) start i new calls
      ≡ free_pages k start i' new (free_page (add32 start i) ∷ calls)
unfolding free_pages
free_pages_step k start i i' new calls more next =
    rw more (ap (λ j. free_pages k start j new (free_page (add32 start i) ∷ calls)) next)

free_pages_done :
    (k start i new : ℕ) (calls : List PageCall)
    → ltb new i ≡ false
    → free_pages (suc k) start i new calls ≡ ok calls
unfolding free_pages
free_pages_done k start i new calls done = rw done refl

-- The loop of `contract` ends: a round more than there are pages is enough.
free_pages_lem :
    (k start i new : ℕ) (calls : List PageCall)
    → 0x1000 ≤ new
    → i < 2 ^ 32
    → i ≤ new + k * 0x1000
    → (calls' : List PageCall) × (free_pages (suc k) start i new calls ≡ ok calls')
free_pages_lem zero start i new calls low small enough =
    let done : ltb new i ≡ false = ground arith in
    (calls, free_pages_done zero start i new calls done)
free_pages_lem (suc k) start i new calls low small enough = elim (Bool-cases (ltb new i)) [
  | inl more ↦
      let above : new < i = ground arith in
      let next : sub32 i 0x1000 ≡ i - 0x1000 = omega arith in
      let (calls', run) =
        free_pages_lem k start (i - 0x1000) new (free_page (add32 start i) ∷ calls) low
          (omega arith) (omega arith) in
      (calls', free_pages_step (suc k) start i (i - 0x1000) new calls more next ∙ run)
  | inr done ↦ (calls, free_pages_done (suc k) start i new calls done)
]

bit_12 : (size : ℕ) → size / 0x1000 % 2 ≡ 1 → bit_and size 0x1000 ≡ 0x1000
bit_12 size odd = bit_and-pow size 12 ∙ omega arith

contract_run :
    (size fuel old last new end : ℕ) (h : Heap) (calls : List PageCall)
    → sub32 h.end_address h.start_address ≡ old
    → ltb size old ≡ true
    → contracted size ≡ new
    → sub32 old 0x1000 ≡ last
    → free_pages fuel h.start_address last new h.calls ≡ ok calls
    → add32 h.start_address new ≡ end
    → contract fuel size h ≡ ok (new, record h { end_address = end; calls = calls })
unfolding contract
contract_run size fuel old last new end h calls length less target at run ends =
    rw (length, less, target, at, run, ends) refl

-- A size whose bit 12 is set makes `contract` go down to 0x70000 bytes, also where the size is larger,
-- so that the heap ends in front of what it was to keep. The fuel is above the number of pages.
pub contract-cuts :
    (size fuel : ℕ) (h : Heap)
    → size / 0x1000 % 2 ≡ 1
    → 0x70000 < size
    → h.start_address + size < h.end_address
    → h.end_address < 2 ^ 32
    → h.end_address ≤ h.start_address + fuel * 0x1000
    → (h' : Heap) × (contract (suc fuel) size h ≡ ok (0x70000, h'))
      × (h'.end_address ≡ h.start_address + 0x70000)
      × (h'.end_address < h.start_address + size)
      × (h'.memory ≡ h.memory)
      × (h'.index ≡ h.index)
unfolding contracted
contract-cuts size fuel h odd large inside small enough =
    let old = h.end_address - h.start_address in
    let (calls', run) =
      free_pages_lem fuel h.start_address (old - 0x1000) 0x70000 h.calls (omega arith) (omega arith)
        (omega arith) in
    (
      record h { end_address = h.start_address + 0x70000; calls = calls' },
      contract_run size (suc fuel) old (old - 0x1000) 0x70000 (h.start_address + 0x70000) h calls'
          (omega arith) (ground arith) (rw (bit_12 size odd) refl) (omega arith) run (omega arith),
      refl,
      omega arith,
      refl,
      refl,
    )
