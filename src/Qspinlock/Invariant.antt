-- ===== src/Qspinlock/Invariant.antt =====
-- What every reachable state keeps: who may own the lock word, who may own the pending bit, and
-- the places of the threads in the queue. Each thread that has published its node has a place, a
-- number that grows from thread to thread; the queue is the places from `head` up to `fresh`.
pub mod Defs
pub mod Owners
pub mod Places
pub mod Links
pub mod Kept
