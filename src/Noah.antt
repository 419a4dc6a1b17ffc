-- ===== src/Noah.antt =====
-- The NOAH messages: grobro/grobro/noah_0103.py and the decoders of grobro/grobro/parser.py.
pub mod Embedded
pub mod Search
pub mod Largest
