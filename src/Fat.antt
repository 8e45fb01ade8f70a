-- ===== src/Fat.antt =====
-- The file system of common/fs/fat32.s2.c on a volume.
pub mod Context
pub mod Table
pub mod Contents
pub mod Followed
pub mod Listed
pub mod Valid
pub mod Tests
