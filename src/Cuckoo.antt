-- ===== src/Cuckoo.antt =====
-- The crate segmented-cuckoo (crates/segmented-cuckoo/src): hashing, index schemes, the cell table
-- and the key-value store.
pub mod Capacity
pub mod Hash
pub mod Scheme
pub mod CellStream
pub mod Table
pub mod Store
pub mod Sample
mod Tests
mod HistoryTests
mod PackTests
mod StreamTests
mod CapacityTests
