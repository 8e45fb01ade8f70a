-- ===== src/Memmap.antt =====
-- common/mm/pmm.s2.c: the physical memory map and the allocators on it.
pub mod Entry
pub mod Removal
pub mod Claim
pub mod Sanitise
pub mod Alloc
pub mod Elsewhere
mod Tests
