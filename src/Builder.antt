-- ===== src/Builder.antt =====
-- grobro/grobro/builder.py: the scrambling mask, the checksum and the configuration packets.
pub mod Scramble
use gro_bro.Prelude.{
  ◌>>=◌, ◌>>◌, guard, ℕ, ◌+◌, ◌-◌, bit_xor, Option, some, [], ◌∷◌, ◌++◌, leb, ◌==◌, if◌then◌else◌,
  length, take, drop, replicate, get_or,
}
use gro_bro.Bytes.{Bytes, Text, pack_word, ljust, encode_ascii}

-- The bytes of "Growatt".
abbrev pub scramble_mask : Bytes
scramble_mask = 71 ∷ 114 ∷ 111 ∷ 119 ∷ 97 ∷ 116 ∷ 116 ∷ []

-- The loop from byte 8 on, with its running index into the mask.
unfoldable pub scramble_from : ℕ → Bytes → Bytes
scramble_from mask_index [] = []
scramble_from mask_index (b ∷ bs) =
    let next = mask_index + 1 in
    bit_xor b (get_or scramble_mask mask_index 0) ∷ scramble_from (if next == 7 then 0 else next) bs

unfoldable pub scramble : Bytes → Bytes
scramble pkt = take 8 pkt ++ scramble_from 0 (drop 8 pkt)

-- `_config_device_field`; `none` stands for the exceptions, not ASCII or past 16 bytes.
unfoldable pub config_device_field : Text → Option Bytes
config_device_field device_id = do
  encoded ← encode_ascii device_id
  guard (leb (length encoded) 16)
  some (ljust 16 encoded)

-- The two-byte checksum comes from the package `crc` (CRC-16/MODBUS), which is a parameter.
module _ (checksum : Bytes → ℕ) where
  unfoldable pub append_crc : Bytes → Option Bytes
  append_crc pkt = do csum ← pack_word (checksum pkt); some (pkt ++ csum)

  unfoldable pub finalize_config_packet : ℕ → Text → Bytes → Option Bytes
  finalize_config_packet message_type device_id payload = do
    let message_length = length payload + 18
    guard (leb message_length 0xffff)
    len ← pack_word message_length
    type ← pack_word message_type
    id ← config_device_field device_id
    append_crc (scramble ((0 ∷ 1 ∷ 0 ∷ 7 ∷ []) ++ len ++ type ++ id ++ payload))

  unfoldable pub build_config_read_packet : Text → ℕ → Option Bytes
  build_config_read_packet device_id register_no = do
    guard (leb register_no 0xffff)
    one ← pack_word 1
    register ← pack_word register_no
    finalize_config_packet 0x0119 device_id (replicate 14 0 ++ (one ++ register))

  unfoldable pub build_config_write_packet : Text → ℕ → Text → Option Bytes
  build_config_write_packet device_id register_no value = do
    guard (leb register_no 0xffff)
    value_bytes ← encode_ascii value
    guard (leb (length value_bytes) (0xffff - 40))
    one ← pack_word 1
    tlv_len ← pack_word (length value_bytes + 4)
    register ← pack_word register_no
    value_len ← pack_word (length value_bytes)
    finalize_config_packet 0x0118 device_id
        (replicate 14 0 ++ (one ++ tlv_len ++ register ++ value_len ++ value_bytes))
