-- ===== src/Refs.antt =====
-- References between entities, as reads report them and as writes resolve them.
pub mod Classify
pub mod Resolve
pub mod Agree
