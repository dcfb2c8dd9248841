-- ===== src/Fs/Initrd/Listing.antt =====
-- What the ramdisk lists and finds.
use ogos.Prelude.{
  ℕ, suc, ◌+◌, ◌^◌, ◌<◌, ◌≡◌, refl, ap, ◌∙◌, Bool, true, false, ◌||◌, List, [], ◌∷◌, ◌++◌, some,
  arith, leb, length, length-append, get_elem?, ◌==◌,
}
use ogos.Prelude.Words.{sub32}
use ogos.Fs.Tar.{TarFile, parsed}
use ogos.Fs.Initrd.{
  root, file, c_string, same_string, dev_name, Initrd, dirent_of, initrd_readdir, find_node,
  initrd_finddir, Callbacks, file_node, file_nodes, init_initrd,
}

-- a file of the list has the name
abbrev pub has_name : List ℕ → List TarFile → Bool
has_name name [] = false
has_name name (tf ∷ tfs) = same_string name (c_string tf.tf_filename) || has_name name tfs

same_string_refl : (cs : List ℕ) → same_string cs cs ≡ true
unfolding same_string
same_string_refl [] = refl
same_string_refl (c ∷ cs) = ground (arith, same_string_refl cs)

node_at :
    (at : Callbacks) (i : ℕ) (front back : List TarFile) (tf : TarFile)
    → get_elem? (file_nodes at i (front ++ tf ∷ back)) (length front)
      ≡ some (file_node at (i + length front) tf)
unfolding file_nodes
node_at at i [] back tf = ap (λ n. some (file_node at n tf)) (omega arith)
node_at at i (t ∷ ts) back tf =
    node_at at (suc i) ts back tf ∙ ap (λ n. some (file_node at n tf)) (omega arith)

length-file_nodes :
    (at : Callbacks) (i : ℕ) (fs : List TarFile) → length (file_nodes at i fs) ≡ length fs
unfolding file_nodes
length-file_nodes at i [] = refl
length-file_nodes at i (t ∷ ts) = ap suc (length-file_nodes at (suc i) ts)

find_node-at :
    (at : Callbacks) (i : ℕ) (front back : List TarFile) (tf : TarFile)
    → has_name (c_string tf.tf_filename) front ≡ false
    → find_node (c_string tf.tf_filename) i (file_nodes at i (front ++ tf ∷ back))
      ≡ some (file (i + length front))
unfolding file_nodes find_node
find_node-at at i [] back tf out =
    rw (same_string_refl (c_string tf.tf_filename)) (ap (λ n. some (file n)) (omega arith))
find_node-at at i (t ∷ ts) back tf out =
    let other : same_string (c_string tf.tf_filename) (c_string t.tf_filename) ≡ false =
      ground arith in
    let rest = find_node-at at (suc i) ts back tf (ground arith) in
    rw other (rest ∙ ap (λ n. some (file n)) (omega arith))

-- On the ramdisk of parsed files the root lists a file by its number plus one, with its name and
-- its number, and its name, where no earlier file and not /dev has it, finds that file again.
pub initrd_finddir-initrd_readdir :
    (at : Callbacks) (front back : List TarFile) (tf : TarFile) (count : ℕ)
    → has_name (c_string tf.tf_filename) front ≡ false
    → same_string (c_string tf.tf_filename) dev_name ≡ false
    → length front + 1 < 2 ^ 32
    → (s : Initrd) × (init_initrd at (parsed (front ++ tf ∷ back) count) ≡ some s)
      × (initrd_readdir s root (length front + 1) ≡ some (c_string tf.tf_filename, length front))
      × (initrd_finddir s root (c_string tf.tf_filename) ≡ some (file (length front)))
unfolding init_initrd initrd_readdir initrd_finddir dirent_of
initrd_finddir-initrd_readdir at front back tf count out not_dev small =
    let files = front ++ tf ∷ back in
    let i = length front in
    let later : (i + 1 == 0) ≡ false = ground arith in
    let index : sub32 (i + 1) 1 ≡ i = omega arith in
    let total : length (file_nodes at 0 files) ≡ i + suc (length back) =
      length-file_nodes at 0 files ∙ length-append front (tf ∷ back) in
    let inside : leb (length (file_nodes at 0 files)) i ≡ false = ground arith in
    (
      _,
      refl,
      rw (later, index, inside, node_at at 0 front back tf)
          (ap (λ n. some (c_string tf.tf_filename, n)) (omega arith)),
      rw not_dev (find_node-at at 0 front back tf out ∙ ap (λ n. some (file n)) (omega arith)),
    )
