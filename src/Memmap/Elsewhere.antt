-- ===== src/Memmap/Elsewhere.antt =====
-- common/lib/elsewhere.c: the places that pieces of an executable are to be moved to.
pub mod Place
pub mod Apart
pub mod Reserve
