-- ===== src/Libc.antt =====
-- The kernel's C library: kernel/src/libc.
pub mod Ctype
pub mod Memory
pub mod Stdlib
pub mod Stdio
mod Tests
