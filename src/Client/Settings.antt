-- ===== src/Client/Settings.antt =====
-- The branches of `__on_message` of grobro/grobro/client.py for settings: configuration packets, read
-- responses and acknowledgements.
use gro_bro.Prelude.{
  ℕ, Bool, true, false, ◌&&◌, Option, none, some, List, [], ◌∷◌, ◌++◌, leb, ◌==◌, if◌then◌else◌,
  length, slice,
}
use gro_bro.Client.State.{
  ptq, ptq_of, remember_gateway, config_field, serial_number, Bridge, ConfigValue, word, whole,
  Action, settings, readback, read_answered, write_accepted, unreadable, endless,
}
use gro_bro.Bytes.{Bytes, Text}
use gro_bro.Config.Tlv.{
  Config, parse_config_type, find_config_offset, done, stuck, DeviceConfig, params,
}
use gro_bro.Pending.{acknowledge, Pending}
use gro_bro.Register.{ℤ}
use gro_bro.Family.{is_text}
use gro_bro.Config.Response.{
  device_text, parse_config_message, parse_config_ack, ok, truncated, no_value, out_of_fuel, Entry,
  ConfigAck,
}
use gro_bro.Client.Topic.{strip_space, starts_with, int_of_text, text_of_int}

-- `if getattr(config, ...)`, for a field that must not be empty, and for one that may be.
abbrev pub copy_filled : ℕ → Option Text → Config
copy_filled k none = []
copy_filled k (some []) = []
copy_filled k (some (c ∷ t)) = (k, c ∷ t) ∷ []

abbrev pub copy_given : ℕ → Option Text → Config
copy_given k none = []
copy_given k (some t) = (k, t) ∷ []

-- What is known of the inverter behind a ShineWeLink: parameters 8, 13, 20, 21 and 76.
abbrev pub ptq_config : Text → DeviceConfig → DeviceConfig
ptq_config serial config = params (
    (8, serial)
    ∷ (13, b'5' ∷ b'5' ∷ [])
    ∷ (copy_filled 20 (config_field 20 config)
        ++ (copy_filled 21 (config_field 21 config) ++ copy_given 76 (config_field 76 config))))

-- A config register of a register map, with "homeassistant.publish".
pub record ConfigRegister : Type 0 where
  pub name : Text
  pub register_no : ℕ
  pub is_int : Bool
  pub publish : Bool

abbrev pub find_config_register : ℕ → List ConfigRegister → Option ConfigRegister
find_config_register k [] = none
find_config_register k (r ∷ rs) = if r.register_no == k then some r else find_config_register k rs

abbrev pub or_word : Text → Option ℤ → ConfigValue
or_word value none = word value
or_word value (some n) = whole n

-- The value of an entry: a number where the register is INT and the text can be read as one.
abbrev pub entry_config_value : Option ConfigRegister → Text → ConfigValue
entry_config_value none value = word value
entry_config_value (some r) value =
    if r.is_int then or_word value (int_of_text value) else word value

abbrev pub str_of : ConfigValue → Text
str_of (word t) = t
str_of (whole n) = text_of_int n

abbrev pub software_version : Text
software_version =
    b's' ∷ b'o' ∷ b'f' ∷ b't' ∷ b'w' ∷ b'a' ∷ b'r' ∷ b'e' ∷ b'_' ∷ b'v' ∷ b'e' ∷ b'r' ∷ b's' ∷ b'i'
    ∷ b'o' ∷ b'n' ∷ []

abbrev pub hardware_version : Text
hardware_version =
    b'h' ∷ b'a' ∷ b'r' ∷ b'd' ∷ b'w' ∷ b'a' ∷ b'r' ∷ b'e' ∷ b'_' ∷ b'v' ∷ b'e' ∷ b'r' ∷ b's' ∷ b'i'
    ∷ b'o' ∷ b'n' ∷ []

abbrev pub data_interval : Text
data_interval =
    b'd' ∷ b'a' ∷ b't' ∷ b'a' ∷ b'_' ∷ b'i' ∷ b'n' ∷ b't' ∷ b'e' ∷ b'r' ∷ b'v' ∷ b'a' ∷ b'l' ∷ []

abbrev pub local_ip : Text
local_ip = b'l' ∷ b'o' ∷ b'c' ∷ b'a' ∷ b'l' ∷ b'_' ∷ b'i' ∷ b'p' ∷ []

abbrev pub wifi_signal_strength : Text
wifi_signal_strength =
    b'w' ∷ b'i' ∷ b'f' ∷ b'i' ∷ b'_' ∷ b's' ∷ b'i' ∷ b'g' ∷ b'n' ∷ b'a' ∷ b'l' ∷ b'_' ∷ b's' ∷ b't'
    ∷ b'r' ∷ b'e' ∷ b'n' ∷ b'g' ∷ b't' ∷ b'h' ∷ []

-- `metadata_field`, as the number of the parameter.
abbrev pub metadata_field_of : Text → Option ℕ
metadata_field_of name =
    if is_text name software_version
    then some 21
    else if is_text name hardware_version
    then some 22
    else if is_text name data_interval
    then some 4
    else if is_text name local_ip
    then some 14
    else if is_text name wifi_signal_strength
    then some 76
    else none

abbrev pub metadata_field : Option ConfigRegister → Option ℕ
metadata_field none = none
metadata_field (some r) = metadata_field_of r.name

abbrev pub is_published : Option ConfigRegister → Bool
is_published none = false
is_published (some r) = r.publish

module _ (V : Type 0) where
  abbrev pub neo_wifi : Text → Option Text → List (Action V)
  neo_wifi value none = []
  neo_wifi value (some []) = []
  neo_wifi value (some (c ∷ neo)) =
      settings (c ∷ neo) (params ((8, c ∷ neo) ∷ (76, value) ∷ [])) ∷ []

  -- The metadata of the device, and the signal strength of the inverter behind it.
  abbrev pub metadata_actions : Bridge → Text → Text → Option ℕ → List (Action V)
  metadata_actions s device_id value none = []
  metadata_actions s device_id value (some field) =
      settings device_id (params ((8, device_id) ∷ (field, value) ∷ []))
      ∷ (if field == 76 then neo_wifi value (ptq_of device_id s.gateways) else [])

  -- The readback of a register; that of the password, register 7, is emptied.
  abbrev pub readback_of : Text → ℕ → ConfigValue → Bool → Action V
  readback_of device_id register_no value retain =
      if register_no == 7
      then readback device_id register_no (word []) true
      else readback device_id register_no value retain

  abbrev pub entry_actions : Bridge → List ConfigRegister → Text → Entry → List (Action V)
  entry_actions s known device_id entry =
      let register = find_config_register entry.register_no known in
      let value = entry_config_value register entry.value in
      metadata_actions s device_id (str_of value) (metadata_field register)
      ++ readback_of device_id entry.register_no value (is_published register)
        ∷ read_answered device_id entry.register_no
        ∷ []

  unfoldable pub entries_actions :
      Bridge → List ConfigRegister → Text → List Entry → List (Action V)
  entries_actions s known device_id [] = []
  entries_actions s known device_id (e ∷ es) =
      entry_actions s known device_id e ++ entries_actions s known device_id es

  -- A config read response, type 281; `known` has the config registers of a device.
  unfoldable pub read_response :
      (Text → List ConfigRegister) → Bytes → Bridge → Bridge × List (Action V)
  read_response known bytes s = elim (parse_config_message bytes) [
    | ok m ↦ (s, entries_actions s (known m.device_id) m.device_id m.entries)
    | truncated ↦ (s, unreadable ∷ [])
    | no_value ↦ (s, unreadable ∷ [])
    | out_of_fuel ↦ (s, endless ∷ [])
  ]

  abbrev pub set_pending : Text → Pending → (Text → Pending) → Text → Pending
  set_pending device_id p pending other = if is_text other device_id then p else pending other

  abbrev pub is_named : Option ConfigRegister → Bool
  is_named none = false
  is_named (some r) = true

  abbrev pub ack_actions :
      (Text → List ConfigRegister) → ConfigAck → Bridge → Bridge × List (Action V)
  ack_actions known ack s =
      let (p, register_no) =
        acknowledge (is_named (find_config_register ack.register_no (known ack.device_id)))
          ack.register_no (s.pending ack.device_id) in
      (
        record s { pending = set_pending ack.device_id p s.pending },
        write_accepted ack.device_id register_no ∷ [],
      )

  -- An acknowledgement, type 280.
  unfoldable pub write_response :
      (Text → List ConfigRegister) → Bytes → Bridge → Bridge × List (Action V)
  write_response known bytes s = elim (parse_config_ack bytes) [
    | ok ack ↦ ack_actions known ack s
    | truncated ↦ (s, unreadable ∷ [])
    | no_value ↦ (s, unreadable ∷ [])
    | out_of_fuel ↦ (s, endless ∷ [])
  ]

  -- The inverter behind a ShineWeLink, from the 30 bytes of its serial number.
  abbrev pub ptq_actions :
      Bool → Text → DeviceConfig → Text → Bridge × List (Action V) → Bridge × List (Action V)
  ptq_actions saved device_id config serial (s, actions) =
      if starts_with ptq serial
      then (
        remember_gateway saved device_id (some serial) s,
        actions ++ settings serial (ptq_config serial config) ∷ [],
      )
      else (s, actions)

  abbrev pub config_actions :
      Bool → Text → ℕ → Bytes → DeviceConfig → Bridge → Bridge × List (Action V)
  config_actions saved device_id msg_type bytes config s =
      let first : Bridge × List (Action V) = (
        remember_gateway saved device_id (serial_number config) s,
        settings device_id config ∷ [],
      ) in
      let serial = strip_space (device_text (slice 38 68 bytes)) in
      if msg_type == 0x0129 && leb 68 (length bytes)
      then ptq_actions saved device_id config serial first
      else first

  -- A configuration packet.
  unfoldable pub config_packet : Bool → Text → ℕ → Bytes → Bridge → Bridge × List (Action V)
  config_packet saved device_id msg_type bytes s =
      elim (parse_config_type bytes (find_config_offset bytes)) [
        | done config ↦ config_actions saved device_id msg_type bytes config s
        | stuck ↦ (s, endless ∷ [])
      ]
