-- ===== src/StrHash.antt =====
-- ceph-hash.c: a hash of strings in two widths.
mod Defs
mod Examples
