-- ===== src/Modbus/Build.antt =====
-- `GrowattModbusMessage.build_grobro`, and the messages that it can build.
use gro_bro.Prelude.{◌>>=◌, ◌<◌, ◌≡◌, Option, none, some, List, [], ◌∷◌, ◌++◌, All}
use gro_bro.Bytes.{Bytes, pack_byte, pack_word, IsSerial}
use gro_bro.Modbus.Device.{
  function_value, encode_modbus_device_id, ModbusFunction, read_input_register,
  preset_single_register,
}
use gro_bro.Modbus.Block.{build_block, Block, IsBlock}
use gro_bro.Modbus.Metadata.{build_metadata, DateTime, Metadata, IsStamp}
use gro_bro.Modbus.WriteAck.{build_write_ack, WriteAck, IsAck}
use gro_bro.Modbus.Message.{msg_len, Message}

-- `if self.metadata: result += self.metadata.build_grobro()`
abbrev pub optional : {A : Type 0} → (A → Option Bytes) → Option A → Option Bytes
optional build none = some []
optional build (some a) = build a

abbrev pub build_blocks : List Block → Option Bytes
build_blocks [] = some []
build_blocks (b ∷ bs) = do block ← build_block b; rest ← build_blocks bs; some (block ++ rest)

-- `none` stands for an exception: a field that does not fit, or metadata without a timestamp.
unfoldable pub build_message : Message → Option Bytes
build_message m = do
  unknown ← pack_word m.unknown
  constant_7 ← pack_word 7
  len ← pack_word (msg_len m)
  constant_1 ← pack_byte 1
  f ← pack_byte (function_value m.function)
  id ← encode_modbus_device_id m.device_id
  metadata ← optional build_metadata m.metadata
  blocks ← build_blocks m.register_blocks
  ack ← optional build_write_ack m.write_ack
  some (unknown ++ constant_7 ++ len ++ constant_1 ++ f ++ id ++ metadata ++ blocks ++ ack)

abbrev pub HasStamp : Option DateTime → Type 0
HasStamp none = ⊥
HasStamp (some t) = IsStamp t

abbrev pub IsMetadata : Option Metadata → Type 0
IsMetadata none = ⊥
IsMetadata (some m) = IsSerial 30 m.device_sn × HasStamp m.timestamp

abbrev pub HasAck : Option WriteAck → Type 0
HasAck none = ⊥
HasAck (some a) = IsAck a

-- Metadata belongs to function 4, and to no other.
abbrev pub FitsFront : ModbusFunction → Option Metadata → Type 0
FitsFront read_input_register metadata = IsMetadata metadata
FitsFront _ metadata = metadata ≡ none

-- Function 6 carries an acknowledgement, any other function carries blocks.
abbrev pub FitsRest : ModbusFunction → List Block → Option WriteAck → Type 0
FitsRest preset_single_register blocks ack = (blocks ≡ []) × HasAck ack
FitsRest _ blocks ack = All IsBlock blocks × (ack ≡ none)

pub record IsMessage (m : Message) : Type 0 where
  pub unknown_word : m.unknown < 65536
  pub serial : IsSerial 30 m.device_id
  pub front : FitsFront m.function m.metadata
  pub rest : FitsRest m.function m.register_blocks m.write_ack
  pub len_word : msg_len m < 65536
