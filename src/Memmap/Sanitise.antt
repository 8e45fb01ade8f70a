-- ===== src/Memmap/Sanitise.antt =====
-- pmm_sanitise_entries() of common/mm/pmm.s2.c: its four passes and their composition.
pub mod Overlap
pub mod Cut
pub mod Scan
pub mod Scanned
pub mod Separate
pub mod Align
pub mod Separated
pub mod Clip
pub mod Clipped
pub mod Sort
pub mod Sorted
pub mod Merge
pub mod Merged
pub mod Passes
pub mod Sane
