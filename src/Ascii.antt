-- ===== src/Ascii.antt =====
-- ascii.c: whether a buffer has only ASCII bytes, eight or sixteen bytes at a time.
mod Defs
mod Words
mod Lanes
mod Selftest
mod Examples
