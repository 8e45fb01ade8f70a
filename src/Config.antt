-- ===== src/Config.antt =====
-- common/lib/config.c: the lookups in a configuration, and the menu that is built from it.
pub mod Value
pub mod Lines
pub mod Lookup
pub mod Entry
pub mod Sections
pub mod Tree
pub mod Nesting
pub mod Outline
pub mod Built
pub mod Strip
pub mod Macro
pub mod Expand
pub mod Room
pub mod Plain
pub mod Init
pub mod Booted
pub mod Ending
pub mod Verified
pub mod Smbios
pub mod Table
pub mod Found
pub mod Walked
mod Tests
