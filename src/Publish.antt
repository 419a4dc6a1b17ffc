-- ===== src/Publish.antt =====
-- The state that the Home Assistant client publishes, of grobro/ha/performance.py, grobro/ha/client.py
-- and grobro/ha/register_helpers.py: how a payload is prepared, and when it is published.
pub mod Rules
pub mod Prepare
pub mod Cached
pub mod States
pub mod Shown
pub mod UpToDate
pub mod Packet
pub mod Combined
pub mod Packs
