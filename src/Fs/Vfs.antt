-- ===== src/Fs/Vfs.antt =====
-- The virtual file system: kernel/src/fs/vfs.c, kernel/include/kernel/vfs.h. A callback is an address,
-- 0 where a node has none, and what a callback does is an argument.
use ogos.Prelude.{ℕ, bit_and, Bool, not, ◌&&◌, List, ◌==◌, if◌then◌else◌}

-- `struct vfs_node`; the name is its C string.
pub record VfsNode : Type 0 where
  pub name : List ℕ
  pub mask : ℕ
  pub uid : ℕ
  pub gid : ℕ
  pub flags : ℕ
  pub inode : ℕ
  pub length : ℕ
  pub impl : ℕ
  pub read : ℕ
  pub write : ℕ
  pub open_node : ℕ
  pub close : ℕ
  pub readdir : ℕ
  pub finddir : ℕ

-- VFS_DIRECTORY is 2.
abbrev pub vfs_isdir : VfsNode → Bool
vfs_isdir node = bit_and node.flags 0x7 == 2

module _ (call : ℕ → VfsNode → ℕ → ℕ → ℕ) where
  pub vfs_read : VfsNode → ℕ → ℕ → ℕ
  vfs_read node offset size = if not (node.read == 0) then call node.read node offset size else 0

  pub vfs_write : VfsNode → ℕ → ℕ → ℕ
  vfs_write node offset size = if not (node.write == 0) then call node.write node offset size else 0

-- `mode` is handed on to the callback.
pub vfs_open : (ℕ → VfsNode → ℕ → ℕ) → VfsNode → ℕ → ℕ
vfs_open call node mode = if not (node.open_node == 0) then call node.open_node node mode else 0

module _ {ℓ} (A : Type ℓ) (null : A) where
  pub vfs_readdir : (ℕ → VfsNode → ℕ → A) → VfsNode → ℕ → A
  vfs_readdir call node index =
      if vfs_isdir node && not (node.readdir == 0) then call node.readdir node index else null

  pub vfs_finddir : (ℕ → VfsNode → List ℕ → A) → VfsNode → List ℕ → A
  vfs_finddir call node name =
      if vfs_isdir node && not (node.finddir == 0) then call node.finddir node name else null

-- The callback has no result, but may change a state.
pub vfs_close {ℓ} : {S : Type ℓ} → (ℕ → VfsNode → S → S) → VfsNode → S → S
vfs_close call node s = if not (node.close == 0) then call node.close node s else s
