-- ===== src/Protocol.antt =====
-- The message types of NOAH and NEXA devices.
pub mod Decoders
pub mod Dispatch
pub mod Meter
pub mod Pairs
pub mod Offset
