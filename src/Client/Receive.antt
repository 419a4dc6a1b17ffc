-- ===== src/Client/Receive.antt =====
-- `__on_message` of grobro/grobro/client.py: a packet from a device, from the cloud policy to the
-- branch for its type. Callbacks are taken to return; logs, captures and the quality of service
-- are left out.
use gro_bro.Prelude.{
  ℕ, Bool, false, ◌&&◌, ◌||◌, Option, none, some, List, [], ◌∷◌, ◌++◌, ltb, ◌==◌, if◌then◌else◌,
  length, slice,
}
use gro_bro.Bytes.{Bytes, Text, be}
use gro_bro.Register.{ℤ, Value}
use gro_bro.Family.{is_text, has_text, uses_noah_protocol, RegisterMap}
use gro_bro.Client.Telemetry.{modbus_packet, known_config, Registers}
use gro_bro.Config.Tlv.{done, stuck, DeviceConfig}
use gro_bro.Client.Policy.{allows_device, CloudForwardingPolicy}
use gro_bro.Client.State.{
  serial_number, is_given, Bridge, Packet, Action, to_cloud, settings, smart_meter, unreadable,
  endless,
}
use gro_bro.Protocol.Decoders.{
  parse_noah_6f64, parse_noah_message, Decoded, noah_0103, noah_fe19, noah_6f64,
}
use gro_bro.Client.Topic.{extract_device_id}
use gro_bro.Builder.{scramble}
use gro_bro.Client.Settings.{read_response, write_response, config_packet}

abbrev pub type_4 : Bytes → ℕ
type_4 bytes = be (slice 4 6 bytes)

abbrev pub msg_type : Bytes → ℕ
msg_type bytes = be (slice 6 8 bytes)

abbrev pub is_config_packet : Bytes → Bool
is_config_packet bytes =
    type_4 bytes == 340 || type_4 bytes == 341 || type_4 bytes == 387 || msg_type bytes == 0x0129

-- "ha" and "growatt"
abbrev pub forwarders : List Text
forwarders = (b'h' ∷ b'a' ∷ []) ∷ (b'g' ∷ b'r' ∷ b'o' ∷ b'w' ∷ b'a' ∷ b't' ∷ b't' ∷ []) ∷ []

abbrev pub is_forwarded : Option Text → Bool
is_forwarded none = false
is_forwarded (some name) = has_text name forwarders

module _ (Float : Type 0) (rounded : ℤ → Float) (scaled : ℤ → Float → Float)
    (shifted : ℤ → Float → Float → Float) (exceeds is_one : Float → Bool)
    (maps : RegisterMap → Registers Float rounded scaled shifted exceeds is_one) where
  abbrev V : Type 0
  V = Value Float rounded scaled shifted

  abbrev pub Effect : Type 0
  Effect = Bridge × List (Action V)

  -- An error dict has no "data", which is a KeyError.
  abbrev pub smart_meter_actions : Decoded → List (Action V)
  smart_meter_actions (noah_6f64 device_id meter time size json) =
      smart_meter device_id (noah_6f64 device_id meter time size json) ∷ []
  smart_meter_actions _ = unreadable ∷ []

  abbrev pub modbus : Text → Bytes → Bridge → Effect
  modbus = modbus_packet Float rounded scaled shifted exceeds is_one maps

  -- A configuration of a NOAH is used where it has a serial number; else the packet is read as Modbus.
  abbrev pub noah_config : Text → Bytes → DeviceConfig → Bridge → Effect
  noah_config device_id bytes config s =
      let on_config : Effect = (s, settings device_id config ∷ []) in
      if uses_noah_protocol device_id && is_given (serial_number config)
      then on_config
      else modbus device_id bytes s

  abbrev pub noah_packet : Text → Bytes → Option Decoded → Bridge → Effect
  noah_packet device_id bytes (some (noah_fe19 _ _ config _)) s =
      noah_config device_id bytes config s
  noah_packet device_id bytes (some (noah_0103 _ _ _)) s = (s, [])
  noah_packet device_id bytes _ s = modbus device_id bytes s

  abbrev pub noah_or_modbus : Text → Bytes → Bridge → Effect
  noah_or_modbus device_id bytes s = elim (parse_noah_message bytes) [
    | done decoded ↦ noah_packet device_id bytes decoded s
    | stuck ↦ (s, endless ∷ [])
  ]

  -- The branch for an unscrambled packet.
  unfoldable pub dispatch : Bool → Text → Bytes → Bridge → Effect
  dispatch saved device_id bytes s =
      let known = known_config Float rounded scaled shifted exceeds is_one maps in
      let none_of : Effect = (s, []) in
      let meter : Effect = (s, smart_meter_actions (parse_noah_6f64 bytes)) in
      if ltb (length bytes) 8
      then none_of
      else if is_config_packet bytes
      then config_packet V saved device_id (msg_type bytes) bytes s
      else if msg_type bytes == 281
      then read_response V known bytes s
      else if msg_type bytes == 280
      then write_response V known bytes s
      else if msg_type bytes == 0x6f64
      then meter
      else noah_or_modbus device_id bytes s

  abbrev pub cloud_actions : CloudForwardingPolicy → Text → Packet → List (Action V)
  cloud_actions policy device_id packet =
      if allows_device policy device_id
      then to_cloud device_id packet.topic packet.payload ∷ []
      else []

  abbrev pub with_actions : List (Action V) → Effect → Effect
  with_actions first (s, actions) = (s, first ++ actions)

  -- `__on_message`
  unfoldable pub on_message : CloudForwardingPolicy → Bool → Packet → Bridge → Effect
  on_message policy saved packet s =
      let device_id = extract_device_id packet.topic in
      let none_of : Effect = (s, []) in
      if s.stopped || is_forwarded packet.forwarded_for || is_text device_id []
      then none_of
      else with_actions (cloud_actions policy device_id packet)
          (dispatch saved device_id (scramble packet.payload) s)
