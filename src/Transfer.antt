-- ===== src/Transfer.antt =====
-- rdma/03_file-transfer/rdma-file-transfer/: a file sent over RDMA, one chunk for each message.
mod Defs
mod Loop
mod Exits
mod Chunks
mod Delivery
mod Examples
