-- ===== src/Home/Commands.antt =====
-- The "set" branch of `__handle_message` of grobro/ha/client.py for numbers, switches, times and
-- selections, `make_modbus_command`, and `send_command` of grobro/grobro/client.py, up to the packet
-- that MQTT is given.
use gro_bro.Prelude.{
  ◌>>=◌, ℕ, ◌+◌, ◌-◌, ◌*◌, ◌&&◌, Option, none, some, List, [], ◌∷◌, ◌++◌, leb, ◌==◌, if◌then◌else◌,
}
use gro_bro.Bytes.{Bytes, Text}
use gro_bro.Register.{ℤ, pos, negsuc}
use gro_bro.Client.Topic.{strip_space, int_of_text}
use gro_bro.Family.{is_text, is_gateway_device}
use gro_bro.Modbus.Command.{build_single, FunctionSingle}
use gro_bro.Modbus.Device.{read_single_register, preset_single_register, ModbusFunction}
use gro_bro.Builder.{scramble, append_crc}
use gro_bro.Client.State.{ptq_of}

pub data CommandType : Type 0 where
  number : CommandType
  switch : CommandType
  time : CommandType
  select : CommandType

-- A value, a value that raises ValueError, or one that no option has.
pub data SetValue : Type 0 where
  value : ℤ → SetValue
  bad_value : SetValue
  unsupported : SetValue

abbrev pub or_bad : Option ℤ → SetValue
or_bad none = bad_value
or_bad (some n) = value n

abbrev pub upper : Text → Text
upper [] = []
upper (c ∷ s) = (if leb b'a' c && leb c b'z' then c - 32 else c) ∷ upper s

-- `raw_value.split(":")`
abbrev pub split_colons : Text → Text → List Text
split_colons item [] = item ∷ []
split_colons item (c ∷ s) =
    let next = split_colons (if c == b':' then [] else item ++ c ∷ []) s in
    if c == b':' then item ∷ next else next

abbrev pub hour_minute : ℤ → ℤ → SetValue
hour_minute (pos hour) (pos minute) =
    if leb hour 23 && leb minute 59 then value (pos (hour * 256 + minute)) else bad_value
hour_minute _ _ = bad_value

abbrev pub both : Option ℤ → Option ℤ → SetValue
both (some hour) (some minute) = hour_minute hour minute
both _ _ = bad_value

-- The first two items, which must be there.
abbrev pub time_set : List Text → SetValue
time_set (hour ∷ minute ∷ rest) = both (int_of_text hour) (int_of_text minute)
time_set _ = bad_value

-- `{value: int(key) for key, value in options.items()}`, in which the last key of a value wins; none
-- where a key is no number.
abbrev pub reverse_options : List (Text × Text) → Option (List (Text × ℤ))
reverse_options [] = some []
reverse_options ((key, t) ∷ options) = do
  n ← int_of_text key
  rest ← reverse_options options
  some ((t, n) ∷ rest)

abbrev pub last_of : Text → List (Text × ℤ) → SetValue → SetValue
last_of raw [] found = found
last_of raw ((t, n) ∷ options) found =
    last_of raw options (if is_text t raw then value n else found)

abbrev pub select_set : Option (List (Text × ℤ)) → Text → SetValue
select_set none raw = bad_value
select_set (some options) raw = last_of raw options unsupported

abbrev pub on_text : Text
on_text = b'O' ∷ b'N' ∷ []

abbrev pub off_text : Text
off_text = b'O' ∷ b'F' ∷ b'F' ∷ []

abbrev pub switch_set : Text → SetValue
switch_set raw =
    if is_text raw on_text
    then value (pos 1)
    else if is_text raw off_text
    then value (pos 0)
    else bad_value

-- `parsed_value`, from the options of the register and the payload.
unfoldable pub parsed_value : CommandType → List (Text × Text) → Text → SetValue
parsed_value switch options payload = switch_set (upper (strip_space payload))
parsed_value time options payload = time_set (split_colons [] (strip_space payload))
parsed_value select [] payload = or_bad (int_of_text (strip_space payload))
parsed_value select (o ∷ options) payload =
    select_set (reverse_options (o ∷ options)) (strip_space payload)
parsed_value number options payload = or_bad (int_of_text (strip_space payload))

-- A packet for a topic, a gateway whose inverter is not known, or an exception.
pub data Sending : Type 0 where
  sends : Text → Bytes → Sending
  no_connection : Sending
  raises : Sending

-- "s/33/" and the device
abbrev pub command_topic : Text → Text
command_topic device_id = b's' ∷ b'/' ∷ b'3' ∷ b'3' ∷ b'/' ∷ device_id

abbrev pub value_or : Option ℕ → ℕ → ℕ
value_or none register_no = register_no
value_or (some v) register_no = v

module _ (checksum : Bytes → ℕ) where
  abbrev pub or_raises : Text → Option Bytes → Sending
  or_raises device_id none = raises
  or_raises device_id (some payload) = sends (command_topic device_id) payload

  abbrev pub send_to : Option Text → FunctionSingle → Sending
  send_to none cmd = no_connection
  send_to (some []) cmd = no_connection
  send_to (some (c ∷ endpoint)) cmd = or_raises (c ∷ endpoint) (do
    bytes ← build_single (record cmd { device_id = c ∷ endpoint })
    append_crc checksum (scramble bytes))

  abbrev pub send_own : FunctionSingle → Sending
  send_own cmd =
      or_raises cmd.device_id (do bytes ← build_single cmd; append_crc checksum (scramble bytes))

  -- `send_command`, with the gateways that the client remembers.
  unfoldable pub send_command : List (Text × Text) → FunctionSingle → Sending
  send_command gateways cmd =
      if is_gateway_device cmd.device_id
      then send_to (ptq_of cmd.device_id gateways) cmd
      else send_own cmd

  -- `make_modbus_command`; where no value is given it is the register.
  abbrev pub make_modbus_command : Text → ModbusFunction → ℕ → Option ℕ → FunctionSingle
  make_modbus_command device_id func register_no given = record {
    device_id = device_id;
    function = func;
    register_no = register_no;
    value = value_or given register_no;
  }

  -- A write that raises is followed by no read.
  abbrev pub then_read : Sending → Sending → List Sending
  then_read raises read = raises ∷ []
  then_read write read = write ∷ read ∷ []

  -- What is sent for a value; a negative one cannot be packed.
  abbrev pub set_sendings : List (Text × Text) → Text → ℕ → SetValue → List Sending
  set_sendings gateways device_id register_no (value (pos v)) =
      then_read
        (send_command gateways
          (make_modbus_command device_id preset_single_register register_no (some v)))
        (send_command gateways
          (make_modbus_command device_id read_single_register register_no none))
  set_sendings gateways device_id register_no (value (negsuc v)) = raises ∷ []
  set_sendings gateways device_id register_no bad_value = raises ∷ []
  set_sendings gateways device_id register_no unsupported = []

  -- The branch, for a register of the device with this number and these options.
  unfoldable pub handle_set :
      List (Text × Text) → CommandType → Text → ℕ → List (Text × Text) → Text → List Sending
  handle_set gateways type device_id register_no options payload =
      set_sendings gateways device_id register_no (parsed_value type options payload)
