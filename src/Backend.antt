-- ===== src/Backend.antt =====
-- The index-PIR back ends of crates/ikpir-common/src/backend.
pub mod Accumulate
pub mod Matvec
pub mod Matrix
pub mod Deltas
pub mod Interface
pub mod Patch
pub mod Frodo
mod Tests
