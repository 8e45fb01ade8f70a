-- ===== src/Text.antt =====
-- Characters, strings and numbers: common/lib/libc.c, common/lib/libc.s2.c, common/lib/misc.s2.c and
-- common/lib/guid.c. A string is the list of its characters before the terminator.
pub mod Chars
pub mod Strings
pub mod Compared
pub mod Number
pub mod Numeral
pub mod Address
pub mod Strtoul
pub mod Saturated
pub mod Guid
pub mod GuidText
mod Tests
