-- ===== src/Fs/Initrd.antt =====
-- The initial ramdisk: kernel/src/fs/initrd.c. A node is the root, the directory /dev or a file by its
-- number; a string is the list of its characters without the zero at its end.
pub mod Reading
pub mod Listing
use ogos.Prelude.{
  ℕ, zero, suc, ◌+◌, ◌-◌, ◌^◌, Bool, true, false, not, ◌&&◌, List, [], ◌∷◌, Option, none, some, leb,
  ltb, length, get_elem?, ◌==◌, if◌then◌else◌,
}
use ogos.Prelude.Words.{add32, sub32}
use ogos.Fs.Tar.{TarFile, Parse, parsed, no_memory, out_of_fuel, bytes}
use ogos.Fs.Vfs.{VfsNode}

pub data Node : Type 0 where
  root : Node
  dev : Node
  file : ℕ → Node

abbrev pub is_root : Node → Bool
is_root root = true
is_root dev = false
is_root (file i) = false

-- The characters before the first zero.
unfoldable pub c_string : List ℕ → List ℕ
c_string [] = []
c_string (c ∷ cs) = if c == 0 then [] else c ∷ c_string cs

-- `!strcmp`
unfoldable pub same_string : List ℕ → List ℕ → Bool
same_string [] [] = true
same_string [] (d ∷ ds) = false
same_string (c ∷ cs) [] = false
same_string (c ∷ cs) (d ∷ ds) = (c == d) && same_string cs ds

abbrev pub dev_name : List ℕ
dev_name = 100 ∷ 101 ∷ 118 ∷ []

abbrev pub initrd_name : List ℕ
initrd_name = 105 ∷ 110 ∷ 105 ∷ 116 ∷ 114 ∷ 100 ∷ []

-- `dirent` for a node.
pub dirent_of : Option VfsNode → Option (List ℕ × ℕ)
dirent_of none = none
dirent_of (some n) = some (n.name, n.inode)

-- The static variables of initrd.c.
pub record Initrd : Type 0 where
  pub tar_files : List TarFile
  pub initrd_root : VfsNode
  pub initrd_dev : VfsNode
  pub root_nodes : List VfsNode

-- The loop of `initrd_read`.
unfoldable pub find_tar_file : List ℕ → List TarFile → Option TarFile
find_tar_file name [] = none
find_tar_file name (tf ∷ tfs) =
    if same_string (c_string tf.tf_filename) name then some tf else find_tar_file name tfs

-- The bytes that are copied from a file, or none where no file has the name.
pub read_found : (ℕ → ℕ) → ℕ → ℕ → Option TarFile → List ℕ
read_found memory offset size none = []
read_found memory offset size (some tf) =
    if ltb tf.tf_datasiz offset
    then []
    else bytes memory (add32 tf.tf_data offset)
        (if ltb tf.tf_datasiz (add32 offset size) then tf.tf_datasiz - offset else size)

-- The bytes that are copied; their number is the result. There is none where the loop starts on an
-- empty queue, whose first file is null.
pub initrd_read : (ℕ → ℕ) → Initrd → List ℕ → ℕ → ℕ → Option (List ℕ)
initrd_read memory s name offset size =
    if length s.tar_files == 0
    then none
    else some (read_found memory offset size (find_tar_file name s.tar_files))

-- A name and an inode.
pub initrd_readdir : Initrd → Node → ℕ → Option (List ℕ × ℕ)
initrd_readdir s node index =
    if is_root node && (index == 0)
    then some (dev_name, 0)
    else if leb (length s.root_nodes) (sub32 index 1)
    then none
    else dirent_of (get_elem? s.root_nodes (sub32 index 1))

-- The loop of `initrd_finddir`, from node i on.
pub find_node : List ℕ → ℕ → List VfsNode → Option Node
find_node name i [] = none
find_node name i (n ∷ ns) =
    if same_string name n.name then some (file i) else find_node name (suc i) ns

pub initrd_finddir : Initrd → Node → List ℕ → Option Node
initrd_finddir s node name =
    if is_root node && same_string name dev_name then some dev else find_node name 0 s.root_nodes

-- The addresses of the three callbacks.
pub record Callbacks : Type 0 where
  pub read_at : ℕ
  pub readdir_at : ℕ
  pub finddir_at : ℕ

abbrev pub directory : Callbacks → List ℕ → VfsNode
directory at name = record {
  name = name;
  mask = 0;
  uid = 0;
  gid = 0;
  flags = 0x02;
  inode = 0;
  length = 0;
  impl = 0;
  read = 0;
  write = 0;
  open_node = 0;
  close = 0;
  readdir = at.readdir_at;
  finddir = at.finddir_at;
}

abbrev pub file_node : Callbacks → ℕ → TarFile → VfsNode
file_node at i tf = record {
  name = c_string tf.tf_filename;
  mask = 0;
  uid = 0;
  gid = 0;
  flags = 0x01;
  inode = i;
  length = tf.tf_datasiz;
  impl = 0;
  read = at.read_at;
  write = 0;
  open_node = 0;
  close = 0;
  readdir = 0;
  finddir = 0;
}

-- The loop over the files.
pub file_nodes : Callbacks → ℕ → List TarFile → List VfsNode
file_nodes at i [] = []
file_nodes at i (tf ∷ tfs) = file_node at i tf ∷ file_nodes at (suc i) tfs

-- There is none where the parser finds no memory: the kernel panics.
pub init_initrd : Callbacks → Parse → Option Initrd
init_initrd at (parsed files count) = some (record {
  tar_files = files;
  initrd_root = directory at initrd_name;
  initrd_dev = directory at dev_name;
  root_nodes = file_nodes at 0 files;
})
init_initrd at no_memory = none
init_initrd at out_of_fuel = none
