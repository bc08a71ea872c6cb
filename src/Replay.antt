-- ===== src/Replay.antt =====
-- The command `replay` (cmd/replay).
pub mod Frames
pub mod Schedule
