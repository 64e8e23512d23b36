-- ===== src/Tracker.antt =====
-- parachain-tracer/src: the tracker of one parachain. It reads the records that the collector
-- stored for a relay chain block (`Records`), updates its state (`Inject`), and reports the
-- progress of the parachain (`Progress`).
pub mod BlockInfo
pub mod Types
pub mod Disputes
pub mod Queues
pub mod Records
pub mod State
pub mod Blocks
pub mod Inclusion
pub mod Backing
pub mod Inject
pub mod Evolution
pub mod Calls
pub mod Progress
mod Tests
