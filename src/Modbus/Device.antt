-- ===== src/Modbus/Device.antt =====
-- The constants and the enumeration of grobro/model/modbus_message.py, and its device field.
use gro_bro.Prelude.{
  ◌>>=◌, ◌>>◌, guard, ℕ, ◌<◌, ◌≡◌, refl, Option, none, some, arith, leb, ◌==◌, if◌then◌else◌,
  length,
}
use gro_bro.Bytes.{Bytes, Text, ljust, encode_ascii, IsSerial}
use gro_bro.Bytes.Strip.{encode_ascii-serial}

abbrev pub header_size : ℕ
header_size = 38

abbrev pub metadata_size : ℕ
metadata_size = 37

abbrev pub write_single_ack_size : ℕ
write_single_ack_size = 5

abbrev pub min_block_size : ℕ
min_block_size = 6

abbrev pub trailer_size : ℕ
trailer_size = 2

pub data ModbusFunction : Type 0 where
  read_holding_register : ModbusFunction
  read_input_register : ModbusFunction
  read_single_register : ModbusFunction
  preset_single_register : ModbusFunction
  preset_multiple_register : ModbusFunction
  vendor_100 : ModbusFunction

unfoldable pub function_value : ModbusFunction → ℕ
function_value read_holding_register = 3
function_value read_input_register = 4
function_value read_single_register = 5
function_value preset_single_register = 6
function_value preset_multiple_register = 16
function_value vendor_100 = 100

-- The test against MODBUS_FUNCTION_VALUES and the conversion to the enumeration.
unfoldable pub function_of_value : ℕ → Option ModbusFunction
function_of_value n =
    if n == 3
    then some read_holding_register
    else if n == 4
    then some read_input_register
    else if n == 5
    then some read_single_register
    else if n == 6
    then some preset_single_register
    else if n == 16
    then some preset_multiple_register
    else if n == 100
    then some vendor_100
    else none

pub function_of_value-value : (f : ModbusFunction) → function_of_value (function_value f) ≡ some f
unfolding function_of_value function_value
function_of_value-value read_holding_register = refl
function_of_value-value read_input_register = refl
function_of_value-value read_single_register = refl
function_of_value-value preset_single_register = refl
function_of_value-value preset_multiple_register = refl
function_of_value-value vendor_100 = refl

pub function_value-of_value :
    (n : ℕ) (f : ModbusFunction) → function_of_value n ≡ some f → function_value f ≡ n
unfolding function_of_value function_value
function_value-of_value n f h = ground arith

pub function_value-IsByte : (f : ModbusFunction) → function_value f < 256
unfolding function_value
function_value-IsByte read_holding_register = omega arith
function_value-IsByte _ = omega arith

-- `none` stands for the exceptions: UnicodeEncodeError, and ValueError past 30 bytes.
unfoldable pub encode_modbus_device_id : Text → Option Bytes
encode_modbus_device_id device_id = do
  encoded ← encode_ascii device_id
  guard (leb (length encoded) 30)
  some (ljust 30 encoded)

pub encode_modbus_device_id-serial :
    (s : Text) → IsSerial 30 s → encode_modbus_device_id s ≡ some (ljust 30 s)
unfolding encode_modbus_device_id
encode_modbus_device_id-serial s h = rw (encode_ascii-serial s h.0) (ground arith)
