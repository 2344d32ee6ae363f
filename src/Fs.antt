-- ===== src/Fs.antt =====
-- kernel/kernel/src/fs: open files, descriptor tables and the in-memory file system.
pub mod Description
pub mod Path
pub mod Table
pub mod Tmpfs
pub mod File
