-- ===== src/Modbus/Message.antt =====
-- `GrowattModbusMessage` of grobro/model/modbus_message.py: the register lookup, the parser and the
-- builder. The parser's loop runs on fuel; `stuck` says that it ran out.
use gro_bro.Prelude.{
  ℕ, zero, suc, ◌+◌, ◌-◌, ◌≡◌, refl, Bool, true, false, ◌||◌, Option, none, some, List, [], ◌∷◌,
  leb, ◌==◌, if◌then◌else◌, length, slice,
}
use gro_bro.Bytes.{Bytes, Text, be, decode_ignore, strip}
use gro_bro.Modbus.Device.{
  header_size, metadata_size, write_single_ack_size, min_block_size, trailer_size,
  function_of_value, ModbusFunction, read_input_register, preset_single_register,
}
use gro_bro.Modbus.Block.{block_size, parse_block, Block}
use gro_bro.Modbus.Metadata.{parse_metadata, Metadata}
use gro_bro.Modbus.WriteAck.{parse_write_ack, WriteAck}

pub record Message : Type 0 where
  pub unknown : ℕ
  pub device_id : Text
  pub metadata : Option Metadata
  pub function : ModbusFunction
  pub register_blocks : List Block
  pub write_ack : Option WriteAck

-- What a parser answers: a value, or None.
pub data Parse {ℓ} (A : Type ℓ) : Type ℓ where
  parsed : A → Parse A
  refused : Parse A
  stuck : Parse A

abbrev pub from_option {ℓ} : {A : Type ℓ} → Option A → Parse A
from_option (some a) = parsed a
from_option none = refused

abbrev pub blocks_size : List Block → ℕ
blocks_size [] = 0
blocks_size (b ∷ bs) = block_size b + blocks_size bs

abbrev pub metadata_length : Option Metadata → ℕ
metadata_length none = 0
metadata_length (some m) = metadata_size

abbrev pub ack_length : Option WriteAck → ℕ
ack_length none = 0
ack_length (some a) = write_single_ack_size

unfoldable pub msg_len : Message → ℕ
msg_len m = 32 + metadata_length m.metadata + blocks_size m.register_blocks + ack_length m.write_ack

infixl 5 ◌>>=◌ ◌>>◌
abbrev pub ◌>>=◌ {ℓ κ} : {A : Type ℓ} {B : Type κ} → Parse A → (A → Parse B) → Parse B
parsed a >>= f = f a
refused >>= f = refused
stuck >>= f = stuck

abbrev pub ◌>>◌ {ℓ} : {B : Type ℓ} → Parse (Unit {0}) → Parse B → Parse B
m >> k = m >>= λ _. k

pub >>=-eq-parsed {ℓ κ} :
    {A : Type ℓ} {B : Type κ} (m : Parse A) (f : A → Parse B) {b : B}
    → (m >>= f) ≡ parsed b
    → (a : A) × (m ≡ parsed a) × (f a ≡ parsed b)
>>=-eq-parsed (parsed a) f h = (a, refl, h)
>>=-eq-parsed refused f h = cc
>>=-eq-parsed stuck f h = cc

abbrev pub require : Bool → Parse (Unit {0})
require true = parsed tt
require false = refused

-- `while buffer_len - offset >= MIN_BLOCK_SIZE`; the final offset comes with the blocks.
unfoldable pub parse_blocks : ℕ → Bytes → ℕ → Parse (List Block × ℕ)
parse_blocks zero buffer offset = stuck
parse_blocks (suc fuel) buffer offset =
    let more = (do
      block ← from_option (parse_block buffer offset)
      (blocks, end) ← parse_blocks fuel buffer (offset + block_size block)
      parsed (block ∷ blocks, end)) in
    if leb min_block_size (length buffer - offset) then more else parsed ([], offset)

-- Metadata stands behind the header for function 4 alone; the offset moves past it.
unfoldable pub parse_front : ModbusFunction → Bytes → Parse (Option Metadata × ℕ)
parse_front read_input_register buffer = do
  metadata ← from_option (parse_metadata buffer header_size)
  parsed (some metadata, header_size + metadata_size)
parse_front f buffer = parsed (none, header_size)

-- The acknowledgement, with or without the trailer, takes all that is left.
unfoldable pub parse_ack_rest : Bytes → ℕ → Parse (List Block × Option WriteAck)
parse_ack_rest buffer offset = do
  let remaining = length buffer - offset
  require (remaining == write_single_ack_size || remaining == write_single_ack_size + trailer_size)
  ack ← from_option (parse_write_ack buffer offset)
  parsed ([], some ack)

-- The blocks, and what the loop leaves: nothing, or the trailer.
unfoldable pub parse_blocks_rest : Bytes → ℕ → Parse (List Block × Option WriteAck)
parse_blocks_rest buffer offset = do
  (blocks, end) ← parse_blocks (suc (length buffer)) buffer offset
  let remaining = length buffer - end
  require (remaining == 0 || remaining == trailer_size)
  parsed (blocks, none)

-- A reply to a single-register write holds an acknowledgement, any other message holds blocks.
unfoldable pub parse_rest : ModbusFunction → Bytes → ℕ → Parse (List Block × Option WriteAck)
parse_rest preset_single_register buffer offset = parse_ack_rest buffer offset
parse_rest f buffer offset = parse_blocks_rest buffer offset

-- What `parse_grobro` does behind the header's tests.
unfoldable pub parse_body : ℕ → Text → ModbusFunction → Bytes → Parse Message
parse_body unknown device_id f buffer = do
  (metadata, offset) ← parse_front f buffer
  (blocks, ack) ← parse_rest f buffer offset
  parsed (record {
    unknown = unknown;
    device_id = device_id;
    metadata = metadata;
    function = f;
    register_blocks = blocks;
    write_ack = ack;
  })

-- The header's device address, its byte 6, is read and not looked at.
unfoldable pub parse_message : Bytes → Parse Message
parse_message buffer = do
  require (leb header_size (length buffer))
  require (be (slice 2 4 buffer) == 7)
  require (be (slice 4 6 buffer) == length buffer - 8)
  f ← from_option (function_of_value (be (slice 7 8 buffer)))
  parse_body (be (slice 0 2 buffer)) (strip (decode_ignore (slice 8 38 buffer))) f buffer
