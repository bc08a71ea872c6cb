-- ===== src/Compare.antt =====
-- The command `cmp` (cmd/cmp/main.go).
pub mod Run
