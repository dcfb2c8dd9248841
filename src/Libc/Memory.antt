-- ===== src/Libc/Memory.antt =====
-- Memory blocks and strings: kernel/src/libc/string.c. Memory holds a byte at each address.
pub mod Blocks
pub mod Strings
use ogos.Prelude.{
  ℕ, zero, suc, ◌+◌, ◌-◌, ◌<◌, ◌%◌, ◌^◌, ◌≡◌, Option, none, some, Bool, List, [], ◌∷◌, ltb, ◌==◌,
  if◌then◌else◌,
}
use ogos.Prelude.Int.{ℤ, pos, negsuc}

abbrev pub Memory : Type 0
Memory = ℕ → ℕ

abbrev pub write : Memory → ℕ → ℕ → Memory
write m a v b = if a == b then v else m b

-- `for (i = 0; i < size; i++) dst[i] = src[i];` from i on, with n bytes to go.
pub copy_up : ℕ → ℕ → ℕ → ℕ → Memory → Memory
copy_up zero i dst src m = m
copy_up (suc n) i dst src m = copy_up n (i + 1) dst src (write m (dst + i) (m (src + i)))

-- `for (i = size; i != 0; i--) dst[i-1] = src[i-1];`
pub copy_down : ℕ → ℕ → ℕ → Memory → Memory
copy_down zero dst src m = m
copy_down (suc i) dst src m = copy_down i dst src (write m (dst + i) (m (src + i)))

pub memcpy : ℕ → ℕ → ℕ → Memory → Memory
unfolding copy_up
memcpy dst src size m = copy_up size 0 dst src m

pub memmove : ℕ → ℕ → ℕ → Memory → Memory
unfolding copy_up copy_down
memmove dst src size m = if ltb dst src then copy_up size 0 dst src m else copy_down size dst src m

fill : ℕ → ℕ → ℕ → ℕ → Memory → Memory
fill zero i buf v m = m
fill (suc n) i buf v m = fill n (i + 1) buf v (write m (buf + i) v)

pub memset : ℕ → ℕ → ℕ → Memory → Memory
unfolding fill
memset buf value size m = fill size 0 buf (value % 2 ^ 8) m

compare_from : ℕ → ℕ → ℕ → ℕ → Memory → ℤ
compare_from zero i a b m = pos 0
compare_from (suc n) i a b m =
    let rest = compare_from n (i + 1) a b m in
    if ltb (m (a + i)) (m (b + i))
    then negsuc 0
    else if ltb (m (b + i)) (m (a + i))
    then pos 1
    else rest

pub memcmp : ℕ → ℕ → ℕ → Memory → ℤ
unfolding compare_from
memcmp a b size m = compare_from size 0 a b m

-- `none` if the fuel runs out.
pub strcmp : ℕ → ℕ → ℕ → Memory → Option ℤ
strcmp zero s1 s2 m = none
strcmp (suc k) s1 s2 m =
    let rest = strcmp k (s1 + 1) (s2 + 1) m in
    if m s1 == m s2
    then if m s1 == 0 then some (pos 0) else rest
    else some (if ltb (m s1) (m s2) then negsuc 0 else pos 1)

unfoldable pub strlen_loop : ℕ → ℕ → ℕ → Memory → Option ℕ
strlen_loop zero string result m = none
strlen_loop (suc k) string result m =
    let rest = strlen_loop k string (result + 1) m in
    if m (string + result) == 0 then some result else rest

unfoldable pub strlen : ℕ → ℕ → Memory → Option ℕ
unfolding strlen_loop
strlen fuel string m = strlen_loop fuel string 0 m

-- the n characters from an address on
unfoldable pub text_at : ℕ → ℕ → Memory → List ℕ
text_at zero start m = []
text_at (suc n) start m = m start ∷ text_at n (start + 1) m
