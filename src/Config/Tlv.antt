-- ===== src/Config/Tlv.antt =====
-- `parse_config_type` and `find_config_offset` of grobro/grobro/parser.py. A configuration maps
-- parameter numbers to texts: the names of _CONFIG_PARAM_NAMES, and "param_N" for the others, are
-- different for different numbers, so a number stands for its name.
use gro_bro.Prelude.{
  ℕ, zero, suc, ◌+◌, ◌-◌, ◌/◌, ◌%◌, Bool, ◌&&◌, ◌||◌, Option, none, some, List, [], ◌∷◌, ltb, leb,
  ◌==◌, if◌then◌else◌, length, drop, all, slice,
}
use gro_bro.Bytes.{Bytes, Text, be, strip}

-- A hexadecimal digit and `bytes.hex()`.
abbrev hex_digit : ℕ → ℕ
hex_digit d = if ltb d 10 then b'0' + d else b'a' + (d - 10)

abbrev pub hex : Bytes → Text
hex [] = []
hex (b ∷ bs) = hex_digit (b / 16) ∷ hex_digit (b % 16) ∷ hex bs

abbrev pub is_printable : ℕ → Bool
is_printable c = leb 32 c && leb c 126

-- The decoded value: printable ASCII as it is, anything else in hexadecimal.
unfoldable pub config_value : Bytes → Text
config_value raw =
    let val = strip raw in if all (λ b. ltb b 128) raw && all is_printable val then val else hex raw

-- A Python dict, in insertion order.
abbrev pub Config : Type 0
Config = List (ℕ × Text)

abbrev pub set_param : ℕ → Text → Config → Config
set_param k v [] = (k, v) ∷ []
set_param k v ((j, w) ∷ c) = if j == k then (k, v) ∷ c else (j, w) ∷ set_param k v c

abbrev pub get_param : ℕ → Config → Option Text
get_param k [] = none
get_param k ((j, w) ∷ c) = if j == k then some w else get_param k c

pub data Outcome {ℓ} (A : Type ℓ) : Type ℓ where
  done : A → Outcome A
  stuck : Outcome A

abbrev pub max_len : ℕ
max_len = 512

-- The loop of `parse_config_type`; `any_params` is that the dict is not empty.
unfoldable pub config_loop : ℕ → Bytes → ℕ → Config → Outcome Config
config_loop zero bytes offset config = stuck
config_loop (suc fuel) bytes offset config =
    let key_id = be (slice offset (offset + 2) bytes) in
    let key_len = be (slice (offset + 2) (offset + 4) bytes) in
    let raw_val = slice (offset + 4) (offset + 4 + key_len) bytes in
    let rest =
      config_loop fuel bytes (offset + 4 + key_len)
        (set_param key_id (config_value raw_val) config) in
    if leb (offset + 4) (length bytes)
    then (if key_len == 0 || ltb max_len key_len || ltb (length bytes) (offset + 4 + key_len)
        then done config
        else rest)
    else done config

-- The parameters, or the hexadecimal text of all bytes from the offset on if there is none.
pub data DeviceConfig : Type 0 where
  params : Config → DeviceConfig
  raw_text : Text → DeviceConfig

abbrev pub or_raw : Bytes → Config → DeviceConfig
or_raw rest [] = raw_text (hex rest)
or_raw rest (p ∷ c) = params (p ∷ c)

unfoldable pub parse_config_type : Bytes → ℕ → Outcome DeviceConfig
parse_config_type bytes offset = elim (config_loop (suc (length bytes)) bytes offset []) [
  | done config ↦ done (or_raw (drop offset bytes) config)
  | stuck ↦ stuck
]

abbrev pub is_tlv_start : Bytes → ℕ → Bool
is_tlv_start bytes i =
    let key = be (slice i (i + 2) bytes) in
    let len = be (slice (i + 2) (i + 4) bytes) in
    ltb 0 key && ltb key 1000 && ltb 0 len && ltb len 256

-- `for i in range(i, i + count)`
unfoldable pub find_from : Bytes → ℕ → ℕ → ℕ
find_from bytes i zero = 0x1c
find_from bytes i (suc count) =
    let rest = find_from bytes (i + 1) count in if is_tlv_start bytes i then i else rest

unfoldable pub find_config_offset : Bytes → ℕ
find_config_offset bytes = find_from bytes 0x1c (length bytes - 4 - 0x1c)
