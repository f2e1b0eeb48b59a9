-- ===== src/Qspinlock/Progress.antt =====
-- The queued spinlock never stands still while a thread wants the lock.
pub mod Defs
pub mod Holders
pub mod Queued
pub mod Linking
pub mod Expecting
pub mod Kept
pub mod Moving
