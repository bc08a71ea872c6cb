-- ===== src/Save.antt =====
-- The command `save` (cmd/save).
pub mod Idents
pub mod Errors
pub mod Summary
