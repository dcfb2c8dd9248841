-- ===== src/Mem.antt =====
-- Memory management: kernel/src/mem.
pub mod Frames
pub mod OrderedArray
pub mod Heap
pub mod Kalloc
pub mod Freeh
pub mod Kmalloc
pub mod Paging
mod Tests
mod HeapTests
mod PagingTests
