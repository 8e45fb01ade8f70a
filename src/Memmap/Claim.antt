-- ===== src/Memmap/Claim.antt =====
-- pmm_new_entry() of common/mm/pmm.s2.c: a range is claimed for a type, and every older entry loses
-- what it held of the range.
pub mod Step
pub mod Cases
pub mod Cover
pub mod Rounds
pub mod Total
