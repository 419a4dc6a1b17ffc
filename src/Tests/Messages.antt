-- ===== src/Tests/Messages.antt =====
-- Modbus messages of a device "QMN1", built and parsed.
use gro_bro.Prelude.{◌+◌, ◌≡◌, refl, ◌≢◌, ◌↔◌, none, some, [], ◌∷◌, ◌++◌, arith, replicate, All}
use gro_bro.Modbus.Metadata.{is_datetime, with_time, DateTime, IsStamp}
use gro_bro.Modbus.Message.{
  msg_len, parse_front, parse_ack_rest, parse_rest, parse_body, parse_message, Message, parsed,
  refused, stuck,
}
use gro_bro.Bytes.{Bytes, Text, IsByte, IsSerial}
use gro_bro.Modbus.Device.{function_of_value, read_input_register, preset_single_register}
use gro_bro.Modbus.Block.{Block, IsBlock}
use gro_bro.Modbus.Registers.{Position}
use gro_bro.Modbus.Build.{build_message, IsMessage}
use gro_bro.Modbus.RoundTrip.{parse_message-build, parse_message-build_bare}
use gro_bro.Modbus.Accounts.{parse_message-ne-stuck}
use gro_bro.Modbus.Sound.{HasNoTail, IsRead, parse_message_sound}
use gro_bro.Modbus.WriteAck.{parse_write_ack}

abbrev serial : Text
serial = 81 ∷ 77 ∷ 78 ∷ 49 ∷ []

abbrev noon : DateTime
noon = record {
  year = 2024;
  month = 2;
  day = 29;
  hour = 12;
  minute = 0;
  second = 30;
  microsecond = 250000;
}

-- Registers 3 and 4.
abbrev two_registers : Block
two_registers = record { start = 3; end = 4; values = 0 ∷ 7 ∷ 1 ∷ 44 ∷ [] }

abbrev one_register : Block
one_register = record { start = 10; end = 10; values = 18 ∷ 52 ∷ [] }

two_registers-IsBlock : IsBlock two_registers
two_registers-IsBlock = record { ordered = omega arith; in_range = omega arith; filled = refl }

one_register-IsBlock : IsBlock one_register
one_register-IsBlock = record { ordered = omega arith; in_range = omega arith; filled = refl }

abbrev input_message : Message
input_message = record {
  unknown = 1;
  device_id = serial;
  metadata = some (with_time serial noon);
  function = read_input_register;
  register_blocks = two_registers ∷ one_register ∷ [];
  write_ack = none;
}

serial-IsSerial : IsSerial 30 serial
serial-IsSerial = (ground arith, omega arith)

noon-IsStamp : IsStamp noon
unfolding is_datetime
noon-IsStamp = record {
  exists = refl;
  from_2000 = omega arith;
  to_2255 = omega arith;
  in_bytes = ground arith;
  millis = (refl, omega arith);
}

input_message-IsMessage : IsMessage input_message
unfolding msg_len
input_message-IsMessage = record {
  unknown_word = omega arith;
  serial = serial-IsSerial;
  front = (serial-IsSerial, noon-IsStamp);
  rest = ((two_registers-IsBlock, (one_register-IsBlock, tt)), refl);
  len_word = omega arith;
}

parse_message-build_example :
    (bytes : Bytes) × (build_message input_message ≡ some bytes)
    × (parse_message (bytes ++ (18 ∷ 52 ∷ [])) ≡ parsed input_message)
parse_message-build_example =
    parse_message-build input_message (18 ∷ 52 ∷ []) input_message-IsMessage refl

parse_message-build_bare_example :
    (bytes : Bytes) × (build_message input_message ≡ some bytes) × (parse_message bytes ≡ refused)
parse_message-build_bare_example = parse_message-build_bare input_message input_message-IsMessage

-- An acknowledged write of 100 to register 250.
abbrev ack_message : Message
ack_message = record {
  unknown = 1;
  device_id = serial;
  metadata = none;
  function = preset_single_register;
  register_blocks = [];
  write_ack = some (record { register_no = 250; value = 100; status = 0 });
}

abbrev ack_buffer : Bytes
ack_buffer =
    (0 ∷ 1 ∷ 0 ∷ 7 ∷ 0 ∷ 37 ∷ 1 ∷ 6 ∷ [])
    ++ (serial ++ replicate 26 0)
    ++ (0 ∷ 250 ∷ 0 ∷ 0 ∷ 100 ∷ 171 ∷ 205 ∷ [])

ack_buffer-parsed : parse_message ack_buffer ≡ parsed ack_message
unfolding parse_message parse_body parse_front parse_rest parse_ack_rest parse_write_ack
    function_of_value
ack_buffer-parsed = refl

ack_buffer-bytes : All IsByte ack_buffer
ack_buffer-bytes = ground arith

parse_message_sound_example :
    ((preset_single_register ≡ read_input_register) ↔ (ack_message.metadata ≢ none))
    × IsRead preset_single_register ack_buffer 38 [] ack_message.write_ack
    × HasNoTail ack_buffer (6 + msg_len ack_message)
parse_message_sound_example =
    parse_message_sound ack_buffer ack_message ack_buffer-bytes ack_buffer-parsed

parse_message-ne-stuck_example : parse_message ack_buffer ≢ stuck
parse_message-ne-stuck_example = parse_message-ne-stuck ack_buffer

-- The low byte of register 10, which the second block covers.
abbrev low_byte : Position
low_byte = record { register_no = 10; offset = 1; size = 1 }
