-- ===== src/Mem/Paging/Clones.antt =====
-- `clone_table` as a whole: kernel/src/mem/paging.c.
use ogos.Mem.Paging.{Paging}
use ogos.Mem.Paging.Cloned.{Copied, Cloned}
