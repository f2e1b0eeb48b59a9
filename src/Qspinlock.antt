-- ===== src/Qspinlock.antt =====
-- qspinlock/: the queued spinlock, for user threads interleaved one shared access at a time.
pub mod Lock
pub mod Masks
pub mod Thread
pub mod Move
pub mod Cover
pub mod System
pub mod Invariant
mod Progress
mod Order
pub mod Safety
mod Examples
