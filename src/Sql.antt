-- ===== src/Sql.antt =====
-- prestoapi/query_splitter.go: the SQL statement splitter and the scanner that drives it.
pub mod Split
pub mod Scanner
