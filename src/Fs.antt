-- ===== src/Fs.antt =====
-- Files: kernel/src/fs.
pub mod Tar
pub mod Vfs
pub mod Initrd
mod Tests
