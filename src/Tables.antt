-- ===== src/Tables.antt =====
-- The virtual tables of the SQL layer (src/ida_bridge/sql/tables).
pub mod Index
pub mod Cursor
pub mod Omit
pub mod Lists
pub mod Ida
pub mod Scan
pub mod Bounds
pub mod Heads
pub mod Dedupe
pub mod Xrefs
pub mod Instructions
pub mod Names
pub mod Flow
pub mod Funcs
pub mod Strings
pub mod Columns
pub mod Comments
