-- ===== src/Text.antt =====
-- Text utilities of libs/cmdr11/include/cmdr11/cmdr_string.hh.
mod Find
pub mod Affix
pub mod Decimal
mod Tests
pub mod Replace
pub mod Split
