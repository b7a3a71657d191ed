-- ===== src/Read.antt =====
-- internal/application/readmodel: planning and answering a read query.
pub mod Projection
pub mod Capability
pub mod Select
pub mod Sort
pub mod Order
pub mod Execute
pub mod Planner
pub mod Load
