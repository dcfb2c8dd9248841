-- ===== src/Mem/Paging/Directories.antt =====
-- `clone_directory` of a directory whose tables are the kernel's: kernel/src/mem/paging.c.
use ogos.Prelude.{ℕ, ◌<◌, ◌≡◌, ◌≢◌}
use ogos.Mem.Heap.{ok}
use ogos.Mem.Kmalloc.{Kmem, Given, kmalloc_int}
use ogos.Mem.Paging.{Paging, put, frame_of, blank_directory}
use ogos.Mem.Paging.Shared.{Shared, Sharable}

-- A directory with the tables of another one.
pub record SameTables (src dir physical_addr : ℕ) (s s' : Paging) : Type 0 where
  pub tables : (j : ℕ) → j < 1024 → (s'.directories dir).tables j ≡ (s.directories src).tables j
  pub physical :
      (j : ℕ)
      → j < 1024
      → (s.directories src).tables j ≢ 0
      → (s'.directories dir).tables_physical j ≡ (s.directories src).tables_physical j
  pub address : (s'.directories dir).physical_addr ≡ physical_addr
  pub others : (d : ℕ) → dir ≢ d → s'.directories d ≡ s.directories d
  pub pages : s'.tables ≡ s.tables
  pub frames : s'.frames ≡ s.frames

module _ (fuel src : ℕ) (s : Paging) (given : Given) (kmem : Kmem)
    (run : kmalloc_int (frame_of s) fuel 8196 1 s.kmem ≡ ok (given, kmem))
    (c : Sharable src given.addr s) where
  abbrev start : Paging
  start = record s {
    kmem = kmem;
    directories = put s.directories given.addr (blank_directory given.phys);
  }
