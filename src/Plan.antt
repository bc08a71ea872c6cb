-- ===== src/Plan.antt =====
-- The query plans of prestoapi/plan_node.
pub mod Tree
pub mod Values
pub mod Markers
pub mod Trace
pub mod Joins
pub mod Csv
