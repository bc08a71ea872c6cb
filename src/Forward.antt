-- ===== src/Forward.antt =====
-- The command `forward` (cmd/forward/main.go).
pub mod Poll
pub mod Queries
