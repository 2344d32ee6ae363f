-- ===== src/Userland.antt =====
-- kernel/kernel/src/userland: the objects behind file descriptors, credentials and system calls.
pub mod Pipe
pub mod Cred
pub mod EventFd
pub mod MemFd
pub mod Signal
pub mod Futex
pub mod AltStack
pub mod Create
pub mod EPoll
