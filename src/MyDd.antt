-- ===== src/MyDd.antt =====
-- mysql/io-bench/mydd.cc: writes a file by threads, or by asynchronous requests.
mod Defs
mod Requests
mod Blocks
mod Lost
mod Regions
mod Examples
