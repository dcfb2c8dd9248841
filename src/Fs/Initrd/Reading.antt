-- ===== src/Fs/Initrd/Reading.antt =====
-- Reads of a file in pieces.
use ogos.Prelude.{
  ℕ, zero, suc, ◌+◌, ◌-◌, ◌^◌, ◌<◌, ◌≤◌, ◌≡◌, refl, ap, ap₂, ◌∙◌, false, List, [], ◌∷◌, ◌++◌, some,
  arith, ltb, ◌==◌, length, if◌then◌else◌, min,
}
use ogos.Prelude.Words.{add32}
use ogos.Fs.Tar.{TarFile, bytes}
use ogos.Fs.Initrd.{Initrd, find_tar_file, read_found, initrd_read}

bytes-append :
    (memory : ℕ → ℕ) (p m n : ℕ)
    → bytes memory p (m + n) ≡ bytes memory p m ++ bytes memory (p + m) n
bytes-append memory p zero n = ap₂ (λ q k. bytes memory q k) (omega arith) (omega arith)
bytes-append memory p (suc m) n =
    let count : suc m + n ≡ suc (m + n) = omega arith in
    let from : p + 1 + m ≡ p + suc m = omega arith in
    rw (count, bytes-append memory (p + 1) m n)
      (ap (λ q. memory p ∷ (bytes memory (p + 1) m ++ bytes memory q n)) from)

found_bytes :
    (memory : ℕ → ℕ) (offset size : ℕ) (tf : TarFile)
    → offset ≤ tf.tf_datasiz
    → offset + size < 2 ^ 32
    → tf.tf_data + tf.tf_datasiz < 2 ^ 32
    → read_found memory offset size (some tf)
      ≡ bytes memory (tf.tf_data + offset) (min size (tf.tf_datasiz - offset))
unfolding read_found
found_bytes memory offset size tf h w b =
    let inside : ltb tf.tf_datasiz offset ≡ false = ground arith in
    let at : add32 tf.tf_data offset ≡ tf.tf_data + offset = omega arith in
    let count : (if ltb tf.tf_datasiz (add32 offset size) then tf.tf_datasiz - offset else size)
        ≡ min size (tf.tf_datasiz - offset) =
      ground arith in
    rw inside (ap₂ (λ p n. bytes memory p n) at count)

length-bytes : (memory : ℕ → ℕ) (p n : ℕ) → length (bytes memory p n) ≡ n
length-bytes memory p zero = refl
length-bytes memory p (suc n) = ap suc (length-bytes memory (p + 1) n)

found_not_empty :
    (name : List ℕ) (tf : TarFile) (fs : List TarFile)
    → find_tar_file name fs ≡ some tf
    → (length fs == 0) ≡ false
unfolding find_tar_file
found_not_empty name tf [] e = cc
found_not_empty name tf (f ∷ fs) e = ground arith

read_bytes :
    (memory : ℕ → ℕ) (s : Initrd) (name : List ℕ) (tf : TarFile) (offset size : ℕ)
    → find_tar_file name s.tar_files ≡ some tf
    → offset ≤ tf.tf_datasiz
    → offset + size < 2 ^ 32
    → tf.tf_data + tf.tf_datasiz < 2 ^ 32
    → initrd_read memory s name offset size
      ≡ some (bytes memory (tf.tf_data + offset) (min size (tf.tf_datasiz - offset)))
unfolding initrd_read
read_bytes memory s name tf offset size found h w b =
    let files : (length s.tar_files == 0) ≡ false = found_not_empty name tf s.tar_files found in
    rw (files, found) (ap some (found_bytes memory offset size tf h w b))

-- Two reads in a row, the first one within the file, give together what one read of both sizes
-- gives, up to the end of the file.
pub initrd_read-append :
    (memory : ℕ → ℕ) (s : Initrd) (name : List ℕ) (tf : TarFile) (offset m n : ℕ)
    → find_tar_file name s.tar_files ≡ some tf
    → offset + m ≤ tf.tf_datasiz
    → offset + m + n < 2 ^ 32
    → tf.tf_data + tf.tf_datasiz < 2 ^ 32
    → (first second : List ℕ) × (initrd_read memory s name offset m ≡ some first)
      × (initrd_read memory s name (offset + m) n ≡ some second)
      × (initrd_read memory s name offset (m + n) ≡ some (first ++ second))
      × (length first ≡ m)
      × (length second ≡ min n (tf.tf_datasiz - (offset + m)))
initrd_read-append memory s name tf offset m n found h w b =
    let k = min n (tf.tf_datasiz - (offset + m)) in
    let first = bytes memory (tf.tf_data + offset) m in
    let second = bytes memory (tf.tf_data + (offset + m)) k in
    let all_m : min m (tf.tf_datasiz - offset) ≡ m = omega arith in
    let all_mn : min (m + n) (tf.tf_datasiz - offset) ≡ m + k = omega arith in
    let from : tf.tf_data + offset + m ≡ tf.tf_data + (offset + m) = omega arith in
    (
      first,
      second,
      read_bytes memory s name tf offset m found (omega arith) (omega arith) b
          ∙ ap (λ c. some (bytes memory (tf.tf_data + offset) c)) all_m,
      read_bytes memory s name tf (offset + m) n found h w b,
      read_bytes memory s name tf offset (m + n) found (omega arith) (omega arith) b
          ∙ ap (λ c. some (bytes memory (tf.tf_data + offset) c)) all_mn
          ∙ ap some (bytes-append memory (tf.tf_data + offset) m k)
          ∙ ap (λ p. some (first ++ bytes memory p k)) from,
      length-bytes memory (tf.tf_data + offset) m,
      length-bytes memory (tf.tf_data + (offset + m)) k,
    )

-- A read whose end goes over 2^32 passes the test of the file's size where the end wraps around to
-- no more than it: more bytes are copied than the file has.
pub initrd_read-overrun :
    (memory : ℕ → ℕ) (s : Initrd) (name : List ℕ) (tf : TarFile) (offset size : ℕ)
    → find_tar_file name s.tar_files ≡ some tf
    → offset ≤ tf.tf_datasiz
    → size < 2 ^ 32
    → 2 ^ 32 ≤ offset + size
    → offset + size ≤ 2 ^ 32 + tf.tf_datasiz
    → tf.tf_datasiz < 2 ^ 32
    → (copied : List ℕ) × (initrd_read memory s name offset size ≡ some copied)
      × (length copied ≡ size)
      × (tf.tf_datasiz - offset < size)
unfolding initrd_read read_found
initrd_read-overrun memory s name tf offset size found h small over wraps b =
    let files : (length s.tar_files == 0) ≡ false = found_not_empty name tf s.tar_files found in
    let inside : ltb tf.tf_datasiz offset ≡ false = ground arith in
    let passes : ltb tf.tf_datasiz (add32 offset size) ≡ false = ground arith in
    (
      bytes memory (add32 tf.tf_data offset) size,
      rw (files, found, inside, passes) refl,
      length-bytes memory (add32 tf.tf_data offset) size,
      omega arith,
    )
