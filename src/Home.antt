-- ===== src/Home.antt =====
-- The commands of Home Assistant, in grobro/ha/client.py, and how grobro/grobro/client.py sends them.
pub mod Commands
pub mod Times
pub mod Wire
