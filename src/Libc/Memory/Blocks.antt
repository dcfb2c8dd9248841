-- ===== src/Libc/Memory/Blocks.antt =====
-- What the block operations leave in memory.
use ogos.Prelude.{
  ℕ, zero, suc, ◌+◌, ◌-◌, ◌≤◌, ◌%◌, ◌^◌, ◌≡◌, ◌∙◌, inl, inr, ◌⊎◌, Bool, ◌&&◌, arith, ltb, leb,
  if◌then◌else◌,
}
use ogos.Libc.Memory.{Memory, copy_up, copy_down, memcpy, memmove, fill, memset}

-- `a` is one of the n addresses from `base` on.
abbrev pub inside : ℕ → ℕ → ℕ → Bool
inside base n a = leb base a && ltb a (base + n)

-- Memory m with the `size` bytes at dst replaced by those that m holds at src.
abbrev pub moved : ℕ → ℕ → ℕ → Memory → Memory
moved dst src size m a = if inside dst size a then m (src + (a - dst)) else m a

copy_up_lem :
    (n i dst src : ℕ) (m : Memory) (a : ℕ)
    → dst ≤ src
    → copy_up n i dst src m a ≡ moved (dst + i) (src + i) n m a
unfolding copy_up
copy_up_lem zero i dst src m a h = ground arith
copy_up_lem (suc n) i dst src m a h = copy_up_lem n (i + 1) dst src _ a h ∙ ground arith

copy_down_lem :
    (n dst src : ℕ) (m : Memory) (a : ℕ) → src ≤ dst → copy_down n dst src m a ≡ moved dst src n m a
unfolding copy_down
copy_down_lem zero dst src m a h = ground arith
copy_down_lem (suc n) dst src m a h = copy_down_lem n dst src _ a h ∙ ground arith

-- `memmove` puts at dst the bytes that stood at src, however the two blocks overlap, and changes
-- no other byte.
pub memmove-moved :
    (dst src size : ℕ) (m : Memory) (a : ℕ) → memmove dst src size m a ≡ moved dst src size m a
unfolding memmove
memmove-moved dst src size m a =
    ground (arith, copy_up_lem size 0 dst src m a, copy_down_lem size dst src m a)

copy_apart :
    (n i dst src : ℕ) (m : Memory) (a : ℕ)
    → src + i + n ≤ dst
    → copy_up n i dst src m a ≡ moved (dst + i) (src + i) n m a
unfolding copy_up
copy_apart zero i dst src m a h = ground arith
copy_apart (suc n) i dst src m a h = copy_apart n (i + 1) dst src _ a (omega arith) ∙ ground arith

-- `memcpy` puts at dst the bytes that stood at src and changes no other byte, if dst does not start
-- behind src inside the block there.
pub memcpy-moved :
    (dst src size : ℕ) (m : Memory) (a : ℕ)
    → (dst ≤ src) ⊎ (src + size ≤ dst)
    → memcpy dst src size m a ≡ moved dst src size m a
unfolding memcpy
memcpy-moved dst src size m a (inl h) = copy_up_lem size 0 dst src m a h ∙ ground arith
memcpy-moved dst src size m a (inr h) = copy_apart size 0 dst src m a (omega arith) ∙ ground arith

fill_lem :
    (n i buf v : ℕ) (m : Memory) (a : ℕ)
    → fill n i buf v m a ≡ (if inside (buf + i) n a then v else m a)
unfolding fill
fill_lem zero i buf v m a = ground arith
fill_lem (suc n) i buf v m a = fill_lem n (i + 1) buf v _ a ∙ ground arith

-- `memset` fills the block with the low byte of the value, and changes no other byte.
pub memset_lem :
    (buf value size : ℕ) (m : Memory) (a : ℕ)
    → memset buf value size m a ≡ (if inside buf size a then value % 2 ^ 8 else m a)
unfolding memset
memset_lem buf value size m a = fill_lem size 0 buf (value % 2 ^ 8) m a ∙ ground arith
