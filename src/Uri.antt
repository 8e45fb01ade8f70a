-- ===== src/Uri.antt =====
-- common/lib/uri.c: the parts of a URI, and the drive and partition of its root.
pub mod Resolve
pub mod Composed
pub mod Partition
pub mod Dispatch
pub mod Opened
mod Tests
