-- ===== src/Utils.antt =====
-- Package utils: the rows of the object-relational mapping, and the flags of the clusters.
pub mod Rows
pub mod RowsMap
pub mod Flags
