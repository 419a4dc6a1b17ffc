-- ===== src/Client.antt =====
-- grobro/grobro/client.py: what is done with a packet from a device or from the cloud.
pub mod Topic
pub mod Strip
pub mod Policy
pub mod Allowlist
pub mod Forward
pub mod State
pub mod Settings
pub mod Telemetry
pub mod Receive
pub mod Proper
pub mod Dispatch
pub mod Run
pub mod Reported
pub mod Route
pub mod Misread
pub mod Answers
