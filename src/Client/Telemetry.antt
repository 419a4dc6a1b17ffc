-- ===== src/Client/Telemetry.antt =====
-- The Modbus branch of `__on_message` of grobro/grobro/client.py: the values of the holding registers
-- and of the input registers of a message. What is done with Python's floats is a parameter, and so
-- are the register maps, which are JSON data.
use gro_bro.Prelude.{
  ◌>>=◌, Bool, true, false, ◌&&◌, Option, none, some, List, [], ◌∷◌, ltb, ◌==◌, if◌then◌else◌,
}
use gro_bro.Bytes.{Bytes, Text}
use gro_bro.Register.{parse_value, ℤ, pos, negsuc, DataOptions, Value, text, integer, number}
use gro_bro.Modbus.Device.{ModbusFunction, read_input_register, read_single_register}
use gro_bro.Family.{is_text, get_known_registers, RegisterMap}
use gro_bro.Modbus.Registers.{get_data, Position}
use gro_bro.Client.Settings.{ConfigRegister}
use gro_bro.Modbus.Block.{Block}
use gro_bro.Modbus.Message.{parse_message, Message, parsed, refused, stuck}
use gro_bro.Client.State.{ptq_of, Bridge, Action, holding_state, input_state, endless}

abbrev pub ppv : Text
ppv = b'P' ∷ b'p' ∷ b'v' ∷ []

abbrev pub switch_on : Text
switch_on = b'O' ∷ b'N' ∷ []

abbrev pub switch_off : Text
switch_off = b'O' ∷ b'F' ∷ b'F' ∷ []

module _ (Float : Type 0) (rounded : ℤ → Float) (scaled : ℤ → Float → Float)
    (shifted : ℤ → Float → Float → Float) (exceeds is_one : Float → Bool) where
  abbrev pub V : Type 0
  V = Value Float rounded scaled shifted

  abbrev pub Options : Type 0
  Options = DataOptions Float rounded scaled shifted

  pub record InputRegister : Type 0 where
    pub name : Text
    pub position : Position
    pub options : Options

  -- A holding register; "growatt" may be missing.
  pub record HoldingRegister : Type 0 where
    pub name : Text
    pub growatt : Option (Position × Options)
    pub is_switch : Bool

  -- What is read of a register map.
  pub record Registers : Type 0 where
    pub input_registers : List InputRegister
    pub holding_registers : List HoldingRegister
    pub config_registers : List ConfigRegister

  -- `value == 1`
  abbrev pub is_on : V → Bool
  is_on (text t) = false
  is_on (integer (pos n)) = n == 1
  is_on (integer (negsuc n)) = false
  is_on (number x) = is_one x

  abbrev pub switch_value : Bool → V → V
  switch_value false v = v
  switch_value true v = text (if is_on v then switch_on else switch_off)

  abbrev pub add_holding : HoldingRegister → Option V → List (Text × V) → List (Text × V)
  add_holding r none rest = rest
  add_holding r (some v) rest = (r.name, switch_value r.is_switch v) ∷ rest

  abbrev pub holding_value : List Block → HoldingRegister → Option V
  holding_value blocks r = elim r.growatt [
    | none ↦ none
    | some (position, options) ↦
        parse_value Float rounded scaled shifted options (get_data blocks position)
  ]

  unfoldable pub holding_values : List Block → List HoldingRegister → List (Text × V)
  holding_values blocks [] = []
  holding_values blocks (r ∷ rs) = add_holding r (holding_value blocks r) (holding_values blocks rs)

  -- `value > 1_000_000`
  abbrev pub is_impossible : V → Bool
  is_impossible (text t) = false
  is_impossible (integer (pos n)) = ltb 1000000 n
  is_impossible (integer (negsuc n)) = false
  is_impossible (number x) = exceeds x

  abbrev pub input_value : List Block → InputRegister → Option V
  input_value blocks r =
      parse_value Float rounded scaled shifted r.options (get_data blocks r.position)

  abbrev pub add_input :
      InputRegister → Option V → Option (List (Text × V)) → Option (List (Text × V))
  add_input r none rest = rest
  add_input r (some v) rest =
      if is_text r.name ppv && is_impossible v
      then none
      else (do values ← rest; some ((r.name, v) ∷ values))

  -- The values of a message; none where its PV power is impossible and the message is dropped.
  unfoldable pub input_values : List Block → List InputRegister → Option (List (Text × V))
  input_values blocks [] = some []
  input_values blocks (r ∷ rs) = add_input r (input_value blocks r) (input_values blocks rs)

  abbrev pub unless_empty :
      (List (Text × V) → Action V) → Option (List (Text × V)) → List (Action V)
  unless_empty action none = []
  unless_empty action (some []) = []
  unless_empty action (some (v ∷ vs)) = action (v ∷ vs) ∷ []

  abbrev pub function_actions : Text → Registers → ModbusFunction → List Block → List (Action V)
  function_actions device_id known read_single_register blocks =
      unless_empty (holding_state device_id) (some (holding_values blocks known.holding_registers))
  function_actions device_id known read_input_register blocks =
      unless_empty (input_state device_id) (input_values blocks known.input_registers)
  function_actions device_id known _ blocks = []

  abbrev pub or_own : Text → Option Text → Text
  or_own device_id none = device_id
  or_own device_id (some []) = device_id
  or_own device_id (some (c ∷ t)) = c ∷ t

  module _ (maps : RegisterMap → Registers) where
    abbrev pub known_registers : Text → Option Registers
    known_registers device_id = elim (get_known_registers device_id) [
      | none ↦ none
      | some m ↦ some (maps m)
    ]

    abbrev pub device_actions : Text → Option Registers → Message → List (Action V)
    device_actions device_id none m = []
    device_actions device_id (some known) m =
        function_actions device_id known m.function m.register_blocks

    -- The data of a gateway are those of the inverter behind it.
    abbrev pub message_actions : Bridge → Text → Message → List (Action V)
    message_actions s device_id m =
        let modbus_device_id = or_own device_id (ptq_of device_id s.gateways) in
        device_actions modbus_device_id (known_registers modbus_device_id) m

    -- A Modbus message; one that cannot be parsed is left alone.
    unfoldable pub modbus_packet : Text → Bytes → Bridge → Bridge × List (Action V)
    modbus_packet device_id bytes s = elim (parse_message bytes) [
      | parsed m ↦ (s, message_actions s device_id m)
      | refused ↦ (s, [])
      | stuck ↦ (s, endless ∷ [])
    ]

    abbrev pub known_config : Text → List ConfigRegister
    known_config device_id = elim (known_registers device_id) [
      | none ↦ []
      | some known ↦ known.config_registers
    ]
