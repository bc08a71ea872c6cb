-- ===== src/Rounding.antt =====
-- The command `round` (cmd/round/main.go).
pub mod Fields
pub mod Decimals
pub mod Files
