-- ===== src/Modbus.antt =====
-- The Modbus messages of grobro/model/modbus_message.py and grobro/model/modbus_function.py.
pub mod Device
pub mod Block
pub mod Metadata
pub mod WriteAck
pub mod Message
pub mod Build
pub mod Blocks
pub mod RoundTrip
pub mod Accounts
pub mod Sound
pub mod Registers
pub mod Command
pub mod CommandTrip
