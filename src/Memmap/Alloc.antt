-- ===== src/Memmap/Alloc.antt =====
-- The allocators of common/mm/pmm.s2.c over a memory map.
pub mod Range
pub mod Claims
pub mod High
pub mod Served
pub mod Freed
pub mod Info
pub mod Frontier
