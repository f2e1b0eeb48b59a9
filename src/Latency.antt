-- ===== src/Latency.antt =====
-- c2c-lat/c2c-lat.cc: two threads that hand a shared variable to and fro.
mod Defs
mod Options
mod Tests
mod Invariant
mod Ending
mod Examples
