-- ===== src/Deadlock/Live.antt =====
-- aisys/deadlock_hunters.c: that a deadlock is reported, and that the monitor sees nothing else.
pub mod Stays
pub mod Wait
pub mod Report
pub mod Hang
