-- ===== src/Rabin.antt =====
-- rabin.c: two steps of a rolling hash, and the two in one.
mod Defs
mod Steps
mod Examples
