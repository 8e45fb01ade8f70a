-- ===== src/Disk.antt =====
-- Volumes of common/lib/part.s2.c, and the file system of common/fs/fat32.s2.c on them.
pub mod Bytes
pub mod Volume
pub mod Cached
pub mod Kept
pub mod Read
pub mod Source
pub mod Tests
