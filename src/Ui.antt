-- ===== src/Ui.antt =====
-- The graphical interface: common/ui.
pub mod Display
pub mod Document
pub mod Documented
pub mod Rotated
pub mod Codepoint
pub mod Blend
pub mod Values
pub mod Bounded
pub mod Colours
pub mod Paths
mod Tests
