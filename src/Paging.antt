-- ===== src/Paging.antt =====
-- common/mm/vmm.c: the pages that a mapping is made of.
pub mod Pages
pub mod Tiled
pub mod Tests
