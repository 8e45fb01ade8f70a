-- ===== src/Qoi.antt =====
-- The image decoder of common/lib/qoi.c.
pub mod Decode
pub mod Stream
pub mod Chunks
pub mod Image
pub mod Filled
pub mod Safe
pub mod Tests
