-- ===== src/Dev.antt =====
-- kernel/kernel/src/dev: terminals.
pub mod Tty
