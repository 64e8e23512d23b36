-- ===== src/Decode.antt =====
-- essentials/src/api/decode.rs: the decoders of runtime calls, of storage values and of the parachains
-- inherent, over the SCALE library as a parameter.
pub mod Coder
pub mod Raw
pub mod Calls
pub mod Values
pub mod Inherent
mod Tests
