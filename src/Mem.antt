-- ===== src/Mem.antt =====
-- kernel/kernel/src/mem: the allocators.
pub mod Pmm
pub mod Ranges
pub mod Access
pub mod Bump
