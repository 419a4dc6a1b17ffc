-- ===== src/Modbus/Command.antt =====
-- grobro/model/modbus_function.py: the commands that read or write one register or several.
use gro_bro.Prelude.{
  ◌>>=◌, ◌>>◌, guard, ℕ, ◌+◌, ◌-◌, ◌*◌, not, ◌&&◌, ◌||◌, Option, some, ◌++◌, leb, ◌==◌, length,
  slice,
}
use gro_bro.Modbus.Device.{
  trailer_size, function_value, function_of_value, encode_modbus_device_id, ModbusFunction,
}
use gro_bro.Bytes.{Bytes, Text, be, pack_byte, pack_word, decode_ignore, strip}

abbrev pub command_size : ℕ
command_size = 42

-- The unpacked fields of a command that its two parsers use.
pub record CommandHeader : Type 0 where
  pub function : ModbusFunction
  pub device_id_raw : Bytes
  pub first : ℕ
  pub second : ℕ
  pub core_length : ℕ

-- `msg_len` describes the packet without its optional trailer.
unfoldable pub unpack_command_header : Bytes → Option CommandHeader
unpack_command_header buffer = do
  guard (leb command_size (length buffer))
  guard (be (slice 0 2 buffer) == 1 && be (slice 2 4 buffer) == 7 && be (slice 6 7 buffer) == 1)
  f ← function_of_value (be (slice 7 8 buffer))
  let core_length = be (slice 4 6 buffer) + 6
  guard (leb command_size core_length)
  guard (length buffer == core_length || length buffer == core_length + trailer_size)
  some (record {
    function = f;
    device_id_raw = slice 8 38 buffer;
    first = be (slice 38 40 buffer);
    second = be (slice 40 42 buffer);
    core_length = core_length;
  })

pub record FunctionMultiple : Type 0 where
  pub device_id : Text
  pub function : ModbusFunction
  pub start : ℕ
  pub end : ℕ
  pub values : Bytes

pub record FunctionSingle : Type 0 where
  pub device_id : Text
  pub function : ModbusFunction
  pub register_no : ℕ
  pub value : ℕ

unfoldable pub parse_multiple : Bytes → Option FunctionMultiple
parse_multiple buffer = do
  header ← unpack_command_header buffer
  let start = header.first
  let end = header.second
  guard (leb start end)
  let values = slice command_size header.core_length buffer
  guard (not (function_value header.function == 16) || length values == (end - start + 1) * 2)
  some (record {
    device_id = strip (decode_ignore header.device_id_raw);
    function = header.function;
    start = start;
    end = end;
    values = values;
  })

unfoldable pub parse_single : Bytes → Option FunctionSingle
parse_single buffer = do
  header ← unpack_command_header buffer
  guard (header.core_length == command_size)
  some (record {
    device_id = strip (decode_ignore header.device_id_raw);
    function = header.function;
    register_no = header.first;
    value = header.second;
  })

-- `_MODBUS_COMMAND.pack(1, 7, msg_len, 1, function, device_id, first, second)`
unfoldable pub pack_command : ℕ → ModbusFunction → Text → ℕ → ℕ → Option Bytes
pack_command len f device_id first second = do
  header_id ← pack_word 1
  constant_7 ← pack_word 7
  l ← pack_word len
  address ← pack_byte 1
  function ← pack_byte (function_value f)
  id ← encode_modbus_device_id device_id
  a ← pack_word first
  b ← pack_word second
  some (header_id ++ constant_7 ++ l ++ address ++ function ++ id ++ a ++ b)

-- `none` stands for the exceptions of `struct.pack` and of the device field.
unfoldable pub build_multiple : FunctionMultiple → Option Bytes
build_multiple c = do
  header ← pack_command (36 + length c.values) c.function c.device_id c.start c.end
  some (header ++ c.values)

unfoldable pub build_single : FunctionSingle → Option Bytes
build_single c = pack_command 36 c.function c.device_id c.register_no c.value
