-- ===== src/Sql.antt =====
-- The SQL layer (src/ida_bridge/sql): the 64-bit value boundary and virtual-table rowids.
pub mod U64
pub mod Rowid
