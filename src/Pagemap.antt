-- ===== src/Pagemap.antt =====
-- va2pa/: from virtual to physical addresses by /proc/PID/pagemap.
mod Defs
mod Reading
mod Fields
mod Examples
