-- ===== src/Exchange.antt =====
-- rdma/02_read-write/: two peers that exchange the keys of their buffers and write or read a message.
mod Defs
mod Completions
mod Early
mod Examples
