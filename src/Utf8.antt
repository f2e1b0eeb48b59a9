-- ===== src/Utf8.antt =====
-- ceph-utf8/ceph-utf8.c: UTF-8 encoding and decoding of 31-bit code points, the optimised encoder,
-- and the stream loops of `main`.
pub mod Defs
pub mod Spec
pub mod Sizes
pub mod Encode
pub mod Decode
pub mod RoundTrip
pub mod Stream
pub mod TestBuf
mod Examples
