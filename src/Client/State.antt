-- ===== src/Client/State.antt =====
-- The state of the client of grobro/grobro/client.py that packets from the devices read and change,
-- what it does with them, and the gateways it remembers.
use gro_bro.Prelude.{
  ℕ, Bool, true, false, not, ◌&&◌, ◌||◌, Option, none, some, List, [], ◌∷◌, ◌==◌, if◌then◌else◌,
  all,
}
use gro_bro.Config.Tlv.{get_param, DeviceConfig, params, raw_text}
use gro_bro.Bytes.{Bytes, Text, strip}
use gro_bro.Register.{ℤ}
use gro_bro.Family.{is_text, has_text, is_gateway_device}
use gro_bro.Pending.{Pending}
use gro_bro.Protocol.Decoders.{Decoded}
use gro_bro.Client.Topic.{strip_space, starts_with}

-- `_forward_stopped`, `_ptq_for_raq`, `_gateway_dirty`, and the config writes of each device.
pub record Bridge : Type 0 where
  pub stopped : Bool
  pub gateways : List (Text × Text)
  pub dirty : List Text
  pub pending : Text → Pending

-- A packet, with its property "forwarded-for".
pub record Packet : Type 0 where
  pub topic : Text
  pub payload : Bytes
  pub forwarded_for : Option Text

-- The value of a config register.
pub data ConfigValue : Type 0 where
  word : Text → ConfigValue
  whole : ℤ → ConfigValue

-- What is done with a packet, over the values of registers: it goes to the cloud; the callbacks
-- `on_config`, `on_config_register_value` with its retain flag, `on_config_read_response`,
-- `on_smart_meter`, `on_holding_register_input` and `on_input_register` are called; a setting is
-- reported as accepted; an error is reported. Loops on fuel have a constructor of their own.
pub data Action (V : Type 0) : Type 0 where
  to_cloud : Text → Text → Bytes → Action V
  settings : Text → DeviceConfig → Action V
  readback : Text → ℕ → ConfigValue → Bool → Action V
  read_answered : Text → ℕ → Action V
  write_accepted : Text → ℕ → Action V
  smart_meter : Text → Decoded → Action V
  holding_state : Text → List (Text × V) → Action V
  input_state : Text → List (Text × V) → Action V
  unreadable : Action V
  endless : Action V

abbrev pub ptq : Text
ptq = b'P' ∷ b'T' ∷ b'Q' ∷ []

abbrev pub ptq_of : Text → List (Text × Text) → Option Text
ptq_of gateway [] = none
ptq_of gateway ((g, endpoint) ∷ gs) = if is_text g gateway then some endpoint else ptq_of gateway gs

abbrev pub set_ptq : Text → Text → List (Text × Text) → List (Text × Text)
set_ptq gateway endpoint [] = (gateway, endpoint) ∷ []
set_ptq gateway endpoint ((g, e) ∷ gs) =
    if is_text g gateway then (gateway, endpoint) ∷ gs else (g, e) ∷ set_ptq gateway endpoint gs

abbrev pub discard : Text → List Text → List Text
discard t [] = []
discard t (u ∷ ts) = if is_text u t then discard t ts else u ∷ discard t ts

abbrev pub is_endpoint_of : Text → Option Text → Bool
is_endpoint_of endpoint none = false
is_endpoint_of endpoint (some e) = is_text e endpoint

-- `_remember_gateway`, where `saved` says that the file is written without an OSError.
unfoldable pub remember_gateway : Bool → Text → Option Text → Bridge → Bridge
remember_gateway saved gateway none s = s
remember_gateway saved gateway (some endpoint) s =
    let t = record s {
      gateways = set_ptq gateway endpoint s.gateways;
      dirty = if saved then discard gateway s.dirty else gateway ∷ discard gateway s.dirty;
    } in
    if not (is_gateway_device gateway) || not (starts_with ptq endpoint)
    then s
    else if is_endpoint_of endpoint (ptq_of gateway s.gateways) && not (has_text gateway s.dirty)
    then s
    else t

abbrev pub is_x : ℕ → Bool
is_x c = c == b'x' || c == b'X'

abbrev pub unless_x : Text → Option Text
unless_x [] = none
unless_x (c ∷ t) = if all is_x (c ∷ t) then none else some (c ∷ t)

-- `reject_placeholder_serial_number` of grobro/model/device_config.py, for ASCII.
unfoldable pub reject_placeholder_serial_number : Option Text → Option Text
reject_placeholder_serial_number none = none
reject_placeholder_serial_number (some value) = unless_x (strip (strip_space value))

-- The field of a configuration with the number of its parameter.
abbrev pub config_field : ℕ → DeviceConfig → Option Text
config_field k (params c) = get_param k c
config_field k (raw_text t) = none

abbrev pub serial_number : DeviceConfig → Option Text
serial_number config = reject_placeholder_serial_number (config_field 8 config)

abbrev pub is_given : Option Text → Bool
is_given none = false
is_given (some t) = true
