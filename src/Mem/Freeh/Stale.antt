-- ===== src/Mem/Freeh/Stale.antt =====
-- The footer that `freeh` leaves behind where a hole follows the block.
use ogos.Prelude.{ℕ, ◌+◌}
use ogos.Mem.Heap.{Bytes, store32, set_size}
use ogos.Mem.Freeh.{Freed}

module _ (f : Freed) (right n size k : ℕ) where
  abbrev m : Bytes
  m = f.heap.memory

  abbrev grown : Bytes
  grown = set_size f.header (size + n) m

  abbrev cleared : Bytes
  cleared = store32 grown right 0
