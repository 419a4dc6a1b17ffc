-- ===== src/Protocol/Decoders.antt =====
-- The NOAH decoders of grobro/grobro/parser.py, by message type, and their dispatch. A decoded
-- message is the dict that a decoder returns, without the message type, which its constructor says.
use gro_bro.Prelude.{
  ℕ, zero, suc, ◌+◌, ◌-◌, ◌/◌, ◌%◌, min, Bool, Option, none, some, List, [], ◌∷◌, ◌++◌, ltb, leb,
  ◌==◌, if◌then◌else◌, length, take, drop, all, slice, get_or,
}
use gro_bro.Bytes.{Bytes, Text, be, decode_replace}
use gro_bro.Config.Tlv.{parse_config_type, find_config_offset, Outcome, done, stuck, DeviceConfig}
use gro_bro.Config.Response.{device_text}
use gro_bro.Noah.Embedded.{words}

pub data Decoded : Type 0 where
  noah_0103 : Text → List ℕ → ℕ → Decoded
  noah_0110 : Text → List (ℕ × ℕ) → Decoded
  noah_0125 : Text → Decoded
  short_0125 : Decoded
  noah_fe18 : Text → ℕ → ℕ → ℕ → ℕ → Text → Decoded
  short_fe18 : Decoded
  noah_fe19 : Text → ℕ → DeviceConfig → ℕ → Decoded
  short_fe19 : Decoded
  noah_fe25 : Text → ℕ → Bool → Decoded
  noah_6f64 : Text → Text → Text → ℕ → Text → Decoded
  long_6f64 : Text → Text → Decoded
  short_6f64 : Decoded

-- The device, the registers and their number.
unfoldable pub parse_noah_0103 : Bytes → Decoded
parse_noah_0103 bytes =
    let registers = words (drop 54 bytes) in
    noah_0103 (device_text (slice 38 54 bytes)) registers (length registers)

abbrev pub set_register : ℕ → ℕ → List (ℕ × ℕ) → List (ℕ × ℕ)
set_register k v [] = (k, v) ∷ []
set_register k v ((j, w) ∷ regs) = if j == k then (k, v) ∷ regs else (j, w) ∷ set_register k v regs

unfoldable pub pairs_loop : ℕ → Bytes → ℕ → List (ℕ × ℕ) → Outcome (List (ℕ × ℕ))
pairs_loop zero body pos regs = stuck
pairs_loop (suc fuel) body pos regs =
    let reg = be (slice pos (pos + 2) body) in
    let val = be (slice (pos + 2) (pos + 4) body) in
    let rest = pairs_loop fuel body (pos + 4) (set_register reg val regs) in
    if leb (pos + 4) (length body) then rest else done regs

abbrev pub map_outcome : {A B : Type 0} → (A → B) → Outcome A → Outcome B
map_outcome f (done a) = done (f a)
map_outcome f stuck = stuck

-- The device, and the registers with their values.
unfoldable pub parse_noah_0110 : Bytes → Outcome Decoded
parse_noah_0110 bytes =
    let payload = drop 24 bytes in
    let body = drop 14 payload in
    map_outcome (λ regs. noah_0110 (device_text (slice 8 24 bytes)) regs)
      (pairs_loop (suc (length body)) body 0 [])

unfoldable pub parse_noah_0125 : Bytes → Decoded
parse_noah_0125 bytes =
    let payload = drop 24 bytes in
    if ltb (length payload) 30 then short_0125 else noah_0125 (device_text (slice 14 30 payload))

-- The device, subtype, length, two fields that may be missing, and the time as a text.
unfoldable pub parse_noah_fe18 : Bytes → Decoded
parse_noah_fe18 bytes =
    let payload = drop 24 bytes in
    let n = length payload in
    if ltb n 18
    then short_fe18
    else noah_fe18 (device_text (slice 8 24 bytes)) (be (slice 14 16 payload))
        (be (slice 16 18 payload)) (if leb 20 n then be (slice 18 20 payload) else 0)
        (if leb 22 n then be (slice 20 22 payload) else 0)
        (if leb 41 n then decode_replace (slice 22 41 payload) else [])

-- The device, subtype, configuration and its offset.
unfoldable pub parse_noah_fe19 : Bytes → Outcome Decoded
parse_noah_fe19 bytes =
    let payload = drop 24 bytes in
    let tlv_offset = find_config_offset payload in
    let found =
      map_outcome
        (λ config.
          noah_fe19 (device_text (slice 8 24 bytes)) (be (slice 14 16 payload)) config tlv_offset)
        (parse_config_type payload tlv_offset) in
    if ltb (length payload) 18 then done short_fe19 else found

-- The device, the payload's length, and whether its front is all zero.
unfoldable pub parse_noah_fe25 : Bytes → Decoded
parse_noah_fe25 bytes =
    let payload = drop 24 bytes in
    let check_len = min 40 (length payload - 4) in
    noah_fe25 (device_text (slice 8 24 bytes)) (length payload)
      (all (λ b. b == 0) (take check_len payload))

-- A byte as decimal digits, at least three or at least two, and a number of four digits.
abbrev pub three_digits : ℕ → Text
three_digits n = (b'0' + n / 100) ∷ (b'0' + n / 10 % 10) ∷ (b'0' + n % 10) ∷ []

abbrev pub two_digits : ℕ → Text
two_digits n = if ltb n 100 then (b'0' + n / 10) ∷ (b'0' + n % 10) ∷ [] else three_digits n

abbrev pub four_digits : ℕ → Text
four_digits n = (b'0' + n / 1000) ∷ three_digits (n % 1000)

-- `2024-02-29T12:00:30.250` from the seven bytes of a time.
unfoldable pub timestamp_text : Bytes → Text
timestamp_text time =
    four_digits (2000 + get_or time 0 0)
    ++ (b'-' ∷ two_digits (get_or time 1 0)
        ++ (b'-' ∷ two_digits (get_or time 2 0)
            ++ (b'T' ∷ two_digits (get_or time 3 0)
                ++ (b':' ∷ two_digits (get_or time 4 0)
                    ++ (b':' ∷ two_digits (get_or time 5 0)
                        ++ b'.' ∷ three_digits (get_or time 6 0))))))

-- The device, the meter, the time, the length of the JSON text and the text.
unfoldable pub parse_noah_6f64 : Bytes → Decoded
parse_noah_6f64 bytes =
    let device_id = device_text (slice 8 38 bytes) in
    let smart_meter_sn = device_text (slice 38 68 bytes) in
    let json_len = be (slice 75 79 bytes) in
    if ltb (length bytes) 81
    then short_6f64
    else if ltb (length bytes - 2) (79 + json_len)
    then long_6f64 device_id smart_meter_sn
    else noah_6f64 device_id smart_meter_sn (timestamp_text (slice 68 75 bytes)) json_len
        (decode_replace (slice 79 (79 + json_len) bytes))

-- `NOAH_DECODERS.get(msg_type)`, applied; `none` is None.
unfoldable pub decode_as : ℕ → Bytes → Outcome (Option Decoded)
decode_as msg_type bytes =
    if msg_type == 0x0103
    then done (some (parse_noah_0103 bytes))
    else if msg_type == 0x0110
    then map_outcome some (parse_noah_0110 bytes)
    else if msg_type == 0x0125
    then done (some (parse_noah_0125 bytes))
    else if msg_type == 0xfe18
    then done (some (parse_noah_fe18 bytes))
    else if msg_type == 0xfe19
    then map_outcome some (parse_noah_fe19 bytes)
    else if msg_type == 0xfe25
    then done (some (parse_noah_fe25 bytes))
    else if msg_type == 0x6f64
    then done (some (parse_noah_6f64 bytes))
    else done none

unfoldable pub parse_noah_message : Bytes → Outcome (Option Decoded)
parse_noah_message bytes =
    if ltb (length bytes) 8 then done none else decode_as (be (slice 6 8 bytes)) bytes
