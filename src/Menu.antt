-- ===== src/Menu.antt =====
-- The menu: common/menu_model.c, which projects the tree of entries onto rows.
pub mod Model
pub mod Listing
pub mod Projected
pub mod Updated
pub mod Nested
pub mod Rows
pub mod Matches
pub mod Path
pub mod Chained
mod Tests
