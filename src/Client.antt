-- ===== src/Client.antt =====
-- The client library: the constant-time equality of its fingerprint scans, the pending deltas, and
-- the two clients.
pub mod ConstantTime
pub mod Pending
pub mod Bundles
pub mod Rewind
pub mod HintPatch
mod Tests
mod RunTests
mod PatchTests
