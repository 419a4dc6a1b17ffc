-- ===== src/Tests/Packets.antt =====
-- Packets from a device "QMN1" to the client, with whole numbers in place of floats.
use gro_bro.Prelude.{
  ℕ, zero, suc, ◌≡◌, refl, ap, ◌∙◌, Bool, true, false, none, some, List, [], ◌∷◌, ◌++◌, arith,
  length, replicate, All, All-append,
}
use gro_bro.Client.Receive.{on_message}
use gro_bro.Register.{int, ℤ}
use gro_bro.Modbus.Metadata.{
  is_datetime, metadata_of, parse_metadata, with_time, DateTime, Metadata,
}
use gro_bro.Client.Policy.{CloudForwardingPolicy}
use gro_bro.Bytes.{Bytes, Text, IsByte}
use gro_bro.Modbus.Block.{parse_block_at, parse_block, Block}
use gro_bro.Modbus.Message.{
  parse_blocks, parse_front, parse_blocks_rest, parse_rest, parse_body, parse_message, Message,
  parsed,
}
use gro_bro.Family.{is_text, get_known_registers, RegisterMap}
use gro_bro.Client.Reported.{IsTarget, report}
use gro_bro.Client.Telemetry.{InputRegister, Registers}
use gro_bro.Client.State.{Packet, to_cloud}
use gro_bro.Builder.{scramble}
use gro_bro.Modbus.Device.{function_of_value, read_input_register}
use gro_bro.Client.Misread.{IsSettings, on_message-IsSettings}
use gro_bro.Client.Route.{is_config_size, on_message-parse_message}
use gro_bro.Client.Topic.{extract_device_id}
use gro_bro.Client.Proper.{IsGateway}
use gro_bro.Client.Answers.{answered_registers, on_message-tlvs}
use gro_bro.Client.Run.{
  fresh, Arrival, IsProper, receive_all, receive_all-IsGateway, on_message-IsProper,
}
use gro_bro.Config.RoundTrip.{tlvs_bytes}
use gro_bro.Builder.Scramble.{scramble-scramble, scramble_lem}

abbrev kept : ℤ → ℤ
kept x = x

abbrev first : ℤ → ℤ → ℤ
first x y = x

abbrev third : ℤ → ℤ → ℤ → ℤ
third x y z = x

abbrev never : ℤ → Bool
never x = false

-- Register 10 is an input register with an integer.
abbrev low : InputRegister ℤ kept first third never never
low = record {
  name = 76 ∷ [];
  position = record { register_no = 10; offset = 0; size = 2 };
  options = record { data_type = int; float_options = none; enum_options = none; mult = none };
}

abbrev maps : RegisterMap → Registers ℤ kept first third never never
maps m = record { input_registers = low ∷ []; holding_registers = []; config_registers = [] }

abbrev serial : Text
serial = 81 ∷ 77 ∷ 78 ∷ 49 ∷ []

-- "c/QMN1"
abbrev topic : Text
topic = 99 ∷ 47 ∷ serial

abbrev all_devices : CloudForwardingPolicy
all_devices = record { enabled = true; allowlist = []; block_config_commands = false }

abbrev padded : Bytes
padded = serial ++ replicate 26 0

-- Registers `from` to `to` of function 4, at noon.
abbrev input_bytes : ℕ → ℕ → ℕ → ℕ → ℕ → Bytes → Bytes
input_bytes len_high len_low start_low end_low end_high values =
    (0 ∷ 1 ∷ 0 ∷ 7 ∷ len_high ∷ len_low ∷ 1 ∷ 4 ∷ [])
    ++ padded
    ++ padded
    ++ (24 ∷ 2 ∷ 29 ∷ 12 ∷ 0 ∷ 30 ∷ 250 ∷ [])
    ++ (0 ∷ start_low ∷ end_high ∷ end_low ∷ [])
    ++ values

abbrev short_bytes : Bytes
short_bytes = input_bytes 0 73 10 10 0 (18 ∷ 52 ∷ [])

-- 134 registers from 0 on, and a trailer of two bytes.
abbrev long_bytes : Bytes
long_bytes = input_bytes 1 85 0 133 0 (replicate 268 0 ++ (171 ∷ 205 ∷ []))

abbrev noon : DateTime
noon = record {
  year = 2024;
  month = 2;
  day = 29;
  hour = 12;
  minute = 0;
  second = 30;
  microsecond = 250000;
}

abbrev message_of : Block → Message
message_of block = record {
  unknown = 1;
  device_id = serial;
  metadata = some (with_time serial noon);
  function = read_input_register;
  register_blocks = block ∷ [];
  write_ack = none;
}

abbrev one_register : Block
one_register = record { start = 10; end = 10; values = 18 ∷ 52 ∷ [] }

abbrev many_registers : Block
many_registers = record { start = 0; end = 133; values = replicate 268 0 }

short_parsed : parse_message short_bytes ≡ parsed (message_of one_register)
unfolding parse_message gro_bro.Modbus.Device.function_of_value gro_bro.Modbus.Message.parse_body
    gro_bro.Modbus.Message.parse_front gro_bro.Modbus.Metadata.parse_metadata
    gro_bro.Modbus.Message.parse_rest gro_bro.Modbus.Message.parse_blocks_rest
    gro_bro.Modbus.Message.parse_blocks gro_bro.Modbus.Block.parse_block
    gro_bro.Modbus.Block.parse_block_at gro_bro.Modbus.Metadata.metadata_of
    gro_bro.Modbus.Metadata.is_datetime
short_parsed = refl

long_parsed : parse_message long_bytes ≡ parsed (message_of many_registers)
unfolding parse_message gro_bro.Modbus.Device.function_of_value gro_bro.Modbus.Message.parse_body
    gro_bro.Modbus.Message.parse_front gro_bro.Modbus.Metadata.parse_metadata
    gro_bro.Modbus.Message.parse_rest gro_bro.Modbus.Message.parse_blocks_rest
    gro_bro.Modbus.Message.parse_blocks gro_bro.Modbus.Block.parse_block
    gro_bro.Modbus.Block.parse_block_at gro_bro.Modbus.Metadata.metadata_of
    gro_bro.Modbus.Metadata.is_datetime
long_parsed = refl

padded-IsByte : All IsByte padded
padded-IsByte = ground arith

short-IsByte : All IsByte short_bytes
short-IsByte = ground arith

zeros-IsByte : (n : ℕ) → All IsByte (replicate n 0)
zeros-IsByte zero = tt
zeros-IsByte (suc n) = (omega arith, zeros-IsByte n)

long-IsByte : All IsByte long_bytes
long-IsByte =
    All-append IsByte (input_bytes 1 85 0 133 0 []) (replicate 268 0 ++ (171 ∷ 205 ∷ []))
      (ground arith)
      (All-append IsByte (replicate 268 0) (171 ∷ 205 ∷ []) (zeros-IsByte 268) (ground arith))

abbrev packet_of : Bytes → Packet
packet_of bytes = record { topic = topic; payload = scramble bytes; forwarded_for = none }

-- A packet of these bytes is read as they are.
read_back :
    (bytes : Bytes) (m : Message)
    → All IsByte bytes
    → parse_message bytes ≡ parsed m
    → parse_message (scramble (scramble bytes)) ≡ parsed m
read_back bytes m h e = ap parse_message (scramble-scramble bytes h) ∙ e

size_of :
    (bytes : Bytes) (b : Bool)
    → is_config_size (length bytes) ≡ b
    → is_config_size (length (scramble bytes)) ≡ b
size_of bytes b e = rw ((scramble_lem bytes 0).0) e

device_of_topic : is_text (extract_device_id topic) [] ≡ false
unfolding extract_device_id
device_of_topic = refl

on_message-parse_message_example :
    (target : Text) × IsTarget [] (extract_device_id topic) target
    × (on_message ℤ kept first third never never maps all_devices true (packet_of short_bytes) fresh
        ≡ (
          fresh,
          to_cloud (extract_device_id topic) topic (scramble short_bytes)
              ∷ report ℤ kept first third never never maps target
                  (get_known_registers target)
                  (one_register ∷ []),
        ))
on_message-parse_message_example =
    on_message-parse_message ℤ kept first third never never maps all_devices true
      (packet_of short_bytes) fresh (message_of one_register) refl refl device_of_topic
      (read_back short_bytes (message_of one_register) short-IsByte short_parsed) refl
      (size_of short_bytes false refl)

on_message-IsSettings_example :
    All IsSettings
      (on_message ℤ kept first third never never maps all_devices true
        (packet_of long_bytes)
        fresh).1
on_message-IsSettings_example =
    on_message-IsSettings ℤ kept first third never never maps all_devices true
      (packet_of long_bytes) fresh (message_of many_registers)
      (read_back long_bytes (message_of many_registers) long-IsByte long_parsed)
      (size_of long_bytes true refl)

abbrev history : List Arrival
history =
    (all_devices, true, packet_of short_bytes) ∷ (all_devices, false, packet_of long_bytes) ∷ []

receive_all-IsGateway_example :
    All IsGateway (receive_all ℤ kept first third never never maps history fresh).gateways
receive_all-IsGateway_example = receive_all-IsGateway ℤ kept first third never never maps history

on_message-IsProper_example :
    All
      (IsProper all_devices (packet_of short_bytes))
      (on_message ℤ kept first third never never maps all_devices true
        (packet_of short_bytes)
        (receive_all ℤ kept first third never never maps history fresh)).1
on_message-IsProper_example =
    on_message-IsProper ℤ kept first third never never maps history all_devices true
      (packet_of short_bytes)

-- The response has registers 76 and 5.
abbrev response_header : Bytes
response_header = (0 ∷ 1 ∷ 0 ∷ 7 ∷ 0 ∷ 45 ∷ 1 ∷ 25 ∷ []) ++ (padded ++ (0 ∷ 2 ∷ 0 ∷ []))

abbrev rssi : ℕ × Bytes
rssi = (76, 45 ∷ 54 ∷ 48 ∷ [])

abbrev other : ℕ × Bytes
other = (5, 49 ∷ [])

abbrev response : Bytes
response = response_header ++ (tlvs_bytes (rssi ∷ other ∷ []) ++ (171 ∷ 205 ∷ []))

on_message-tlvs_example :
    answered_registers
      (on_message ℤ kept first third never never maps all_devices true (packet_of response) fresh).1
    ≡ 76 ∷ 5 ∷ []
on_message-tlvs_example =
    on_message-tlvs ℤ kept first third never never maps all_devices true (packet_of response) fresh
      response_header rssi (other ∷ []) (171 ∷ 205 ∷ []) refl refl device_of_topic refl
      (ground arith) refl (ground arith) refl refl refl
