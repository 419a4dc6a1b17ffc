-- ===== src/Config.antt =====
-- The configuration half of grobro/grobro/parser.py: TLV blocks, config responses and
-- acknowledgements. The loops run on fuel, and `stuck` says that it ran out.
pub mod Latest
pub mod Tlv
pub mod Response
pub mod Total
pub mod RoundTrip
pub mod Entries
pub mod Packets
