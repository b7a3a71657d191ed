-- ===== src/Tests.antt =====
-- The theorems and the definitions at concrete inputs.
pub mod Data
mod Documents
mod Samples
mod Edits
mod Sources
mod Workspaces
mod Sorting
mod Reads
mod Writes
