-- ===== src/Modbus/Accounts.antt =====
-- The parser on any input: it ends, and what it accepts accounts for every byte.
use gro_bro.Prelude.{ℕ, zero, suc, ◌+◌, ◌-◌, ◌<◌, ◌≢◌, inl, inr, arith, Option-cases, length}
use gro_bro.Modbus.Message.{
  parse_blocks, parse_front, parse_ack_rest, parse_blocks_rest, parse_rest, parse_body,
  parse_message, stuck,
}
use gro_bro.Modbus.Device.{ModbusFunction, read_input_register, preset_single_register}
use gro_bro.Bytes.{Bytes, Text}
use gro_bro.Modbus.Block.{block_size, parse_block}

-- The loop ends: every block moves the offset by four at least.
parse_blocks-ne-stuck :
    (fuel : ℕ) (buffer : Bytes) (offset : ℕ)
    → length buffer - offset < fuel
    → parse_blocks fuel buffer offset ≢ stuck
unfolding parse_blocks
parse_blocks-ne-stuck zero buffer offset h = absurd (omega arith)
parse_blocks-ne-stuck (suc fuel) buffer offset h = elim (Option-cases (parse_block buffer offset)) [
  | inl e ↦ ground arith
  | inr (b, e) ↦ ground (arith, parse_blocks-ne-stuck fuel buffer (offset + block_size b))
]

parse_rest-ne-stuck :
    (f : ModbusFunction) (buffer : Bytes) (offset : ℕ) → parse_rest f buffer offset ≢ stuck
unfolding parse_rest parse_ack_rest parse_blocks_rest
parse_rest-ne-stuck preset_single_register buffer offset = ground arith
parse_rest-ne-stuck f buffer offset =
    ground (arith, parse_blocks-ne-stuck (suc (length buffer)) buffer offset)

parse_front-ne-stuck : (f : ModbusFunction) (buffer : Bytes) → parse_front f buffer ≢ stuck
unfolding parse_front
parse_front-ne-stuck read_input_register buffer = ground arith
parse_front-ne-stuck f buffer = ground arith

parse_body-ne-stuck :
    (unknown : ℕ) (id : Text) (f : ModbusFunction) (buffer : Bytes)
    → parse_body unknown id f buffer ≢ stuck
unfolding parse_body
parse_body-ne-stuck unknown id f buffer =
    grind (arith, parse_front-ne-stuck f buffer, parse_rest-ne-stuck)

-- On every input the parser answers a message or None: its loop never runs out of fuel.
pub parse_message-ne-stuck : (buffer : Bytes) → parse_message buffer ≢ stuck
unfolding parse_message
parse_message-ne-stuck buffer = grind (arith, parse_body-ne-stuck)
