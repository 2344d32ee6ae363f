-- ===== src/Sched.antt =====
-- kernel/kernel/src/sched: events, threads and signals.
pub mod Event
pub mod Thread
pub mod Switch
pub mod Wait
pub mod Exit
