-- ===== src/Update.antt =====
-- internal/application/commands/update/internal/engine: changing one document.
pub mod Lines
pub mod Apply
pub mod Preflight
pub mod Storage
pub mod Candidate
pub mod Execute
