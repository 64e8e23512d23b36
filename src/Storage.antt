-- ===== src/Storage.antt =====
-- essentials/src/storage.rs: the in-memory record storages that the collector fills and the tools
-- read. `Entry` has the entries, `Schedule` the index by block that pruning follows, `Plain` and
-- `Prefixed` the two storages.
pub mod Entry
pub mod Schedule
pub mod Plain
pub mod Prefixed
