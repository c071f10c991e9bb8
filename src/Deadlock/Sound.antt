-- ===== src/Deadlock/Sound.antt =====
-- aisys/deadlock_hunters.c: when the monitor reports a deadlock.
pub mod Stuck
pub mod Since
