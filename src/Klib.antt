-- ===== src/Klib.antt =====
-- kernel/kernel/src/klib: the kernel's support library.
pub mod Ring
pub mod Hash
pub mod HashTable
pub mod TimeSpec
pub mod Algorithm
pub mod Bitmap
pub mod CString
