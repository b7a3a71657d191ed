-- ===== src/Check.antt =====
-- The checks of a document that is to be written, and of the values of its fields.
pub mod Rules
pub mod Entity
pub mod Nil
