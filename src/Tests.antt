-- ===== src/Tests.antt =====
-- Runs of the models at concrete inputs.
mod Messages
mod Commands
mod Configs
mod Batteries
mod Protocols
mod Families
mod Registers
mod Sequences
mod Clients
mod Packets
mod Homes
mod Watches
mod Payloads
mod Json
mod Files
mod Stored
mod Publications
