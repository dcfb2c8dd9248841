-- ===== src/Fs/Tests.antt =====
-- Examples of the theorems on files: an archive of one file of three bytes.
use ogos.Prelude.{
  ℕ, ◌≡◌, refl, some, true, false, List, [], ◌∷◌, ◌++◌, arith, ◌==◌, if◌then◌else◌, ltb, leb,
  length, ◌&&◌,
}
use ogos.Fs.Tar.{TarFile, parsed, bytes, tar_parse_mem}
use ogos.Fs.Tar.Parsed.{tar_parse_mem-Archive}
use ogos.Fs.Initrd.{
  Initrd, Callbacks, root, file, c_string, same_string, find_tar_file, initrd_read, initrd_readdir,
  initrd_finddir, init_initrd, directory, file_node,
}
use ogos.Fs.Initrd.Reading.{initrd_read-append}
use ogos.Fs.Initrd.Listing.{has_name, initrd_finddir-initrd_readdir}

-- A header at 4096 with the name "A" and the size 3, its contents, and zeros behind.
abbrev memory : ℕ → ℕ
memory a =
    if a == 4096
    then 65
    else if leb 4220 a && ltb a 4230
    then 48
    else if a == 4230
    then 51
    else if leb 4608 a && ltb a 4611
    then 7
    else 0

abbrev only_file : TarFile
only_file = record { tf_filename = bytes memory 4096 100 ++ 0 ∷ []; tf_datasiz = 3; tf_data = 4608 }

tar_parse_mem-Archive_example :
    tar_parse_mem memory (λ _. true) (λ _. 0) 5 4096 ≡ parsed (only_file ∷ []) 1
tar_parse_mem-Archive_example =
    tar_parse_mem-Archive memory (λ _. true) (λ _. 0) 5 4096 (only_file ∷ [])
      (omega arith, refl, refl, refl, refl, omega arith, omega arith, refl) (λ _. refl)
      (omega arith)

abbrev callbacks : Callbacks
callbacks = record { read_at = 1; readdir_at = 2; finddir_at = 3 }

abbrev disk : Initrd
disk = record {
  tar_files = only_file ∷ [];
  initrd_root = directory callbacks [];
  initrd_dev = directory callbacks [];
  root_nodes = file_node callbacks 0 only_file ∷ [];
}

abbrev name_a : List ℕ
name_a = 65 ∷ []

found_a : find_tar_file name_a disk.tar_files ≡ some only_file
unfolding find_tar_file same_string c_string
found_a = refl

initrd_read-append_example :
    (first second : List ℕ) × (initrd_read memory disk name_a 0 2 ≡ some first)
    × (initrd_read memory disk name_a 2 5 ≡ some second)
    × (initrd_read memory disk name_a 0 7 ≡ some (first ++ second))
    × (length first ≡ 2)
    × (length second ≡ 1)
initrd_read-append_example =
    initrd_read-append memory disk name_a only_file 0 2 5 found_a (omega arith) (omega arith)
      (omega arith)

-- the file b of the files a and b
abbrev named : ℕ → TarFile
named c = record { tf_filename = c ∷ 0 ∷ []; tf_datasiz = 1; tf_data = 0 }

other_name : has_name (c_string (named 66).tf_filename) (named 65 ∷ []) ≡ false
unfolding c_string same_string
other_name = refl

not_dev : same_string (c_string (named 66).tf_filename) (100 ∷ 101 ∷ 118 ∷ []) ≡ false
unfolding c_string same_string
not_dev = refl

initrd_finddir-initrd_readdir_example :
    (s : Initrd) × (init_initrd callbacks (parsed (named 65 ∷ named 66 ∷ []) 2) ≡ some s)
    × (initrd_readdir s root 2 ≡ some (c_string (named 66).tf_filename, 1))
    × (initrd_finddir s root (c_string (named 66).tf_filename) ≡ some (file 1))
initrd_finddir-initrd_readdir_example =
    initrd_finddir-initrd_readdir callbacks (named 65 ∷ []) [] (named 66) 2 other_name not_dev
      (omega arith)
