-- ===== src/Collector.antt =====
-- The collector: essentials/src/collector. Types holds its data, Action the shape of its methods,
-- Disputes the events of a block's disputes, Broadcast what it sends, Node what it asks, Heads and
-- Import the handling of a new head, Candidates and Disputed that of the other events, Record the methods
-- of a candidate's record, and Run the collector's loop. The others hold theorems.
pub mod Types
pub mod Action
pub mod Disputes
pub mod Broadcast
pub mod Node
pub mod Heads
pub mod Import
pub mod Candidates
pub mod Disputed
pub mod Record
pub mod Run
pub mod Frame
pub mod Connected
pub mod Delivery
pub mod Ending
pub mod Verdicts
pub mod Stored
pub mod Resolved
mod Tests
pub mod Heights
