-- ===== src/Fs/Tar.antt =====
-- The parser of tape archives: kernel/src/fs/tar.c. The memory is a function from addresses to bytes,
-- the queue of files a list. Which calls of `kmalloc` give memory is an argument.
pub mod Octal
pub mod Parsed
use ogos.Prelude.{
  ℕ, zero, suc, ◌+◌, ◌*◌, ◌/◌, ◌%◌, ◌-◌, ◌^◌, Bool, true, false, List, [], ◌∷◌, ◌++◌, Option, none,
  some, ltb, ◌==◌, if◌then◌else◌,
}
use ogos.Prelude.Words.{add32, sub32, mul32}

-- A byte as a `char`, in an unsigned word.
pub char32 : ℕ → ℕ
char32 c = if ltb c 128 then c else c + 2 ^ 32 - 256

-- The loop of `getsize`, with the characters that are left.
pub getsize_from : (ℕ → ℕ) → ℕ → ℕ → ℕ → ℕ → ℕ
getsize_from memory field zero size count = size
getsize_from memory field (suc j) size count =
    getsize_from memory field j
      (add32 size (mul32 (sub32 (char32 (memory (add32 field j))) 48) count)) (mul32 count 8)

pub getsize : (ℕ → ℕ) → ℕ → ℕ
getsize memory field = getsize_from memory field 11 0 1

-- `struct tar_file`. The name has 100 bytes of the header, and one that `kmalloc` left.
pub record TarFile : Type 0 where
  pub tf_filename : List ℕ
  pub tf_datasiz : ℕ
  pub tf_data : ℕ

pub data Parse : Type 0 where
  parsed : List TarFile → ℕ → Parse
  no_memory : Parse
  out_of_fuel : Parse

abbrev pub bytes : (ℕ → ℕ) → ℕ → ℕ → List ℕ
bytes memory p zero = []
bytes memory p (suc n) = memory p ∷ bytes memory (p + 1) n

-- The address behind a file of the size at p.
pub skip_file : ℕ → ℕ → ℕ
skip_file p siz =
    let p1 = add32 p ((siz / 512 + 1) * 512) in if siz % 512 == 0 then p1 else add32 p1 512

module _ (memory : ℕ → ℕ) (allocates : ℕ → Bool) (left : ℕ → ℕ) where
  -- The `for` loop; `left i` is the byte that `kmalloc` left behind the name of file i. The size is
  -- 124 bytes into the header.
  pub parse_from : ℕ → ℕ → ℕ → List TarFile → Parse
  parse_from zero p i q = out_of_fuel
  parse_from (suc f) p i q =
      let siz = getsize memory (add32 p 124) in
      let tf : TarFile = record {
        tf_filename = bytes memory p 100 ++ left i ∷ [];
        tf_datasiz = siz;
        tf_data = add32 p 512;
      } in
      let rest = parse_from f (skip_file p siz) (suc i) (q ++ tf ∷ []) in
      if memory p == 0 then parsed q i else if allocates (suc i) then rest else no_memory

  pub tar_parse_mem : ℕ → ℕ → Parse
  tar_parse_mem fuel addr = if allocates 0 then parse_from fuel addr 0 [] else no_memory
