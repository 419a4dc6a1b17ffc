-- ===== src/Modbus/Sound.antt =====
-- What the parser accepts is well formed and accounts for every byte of the buffer.
use gro_bro.Prelude.{
  ℕ, zero, suc, ◌+◌, ◌-◌, ◌≤◌, ◌≡◌, refl, sym, ap, subst, ◌∙◌, ◌≢◌, ◌↔◌, ◌⊎◌, inl, inr, Option,
  none, some, List, [], ◌∷◌, ◌++◌, append_assoc, arith, leb, ◌==◌, length, drop, All, slice,
  length-append, length-drop,
}
use gro_bro.Modbus.Message.{
  from_option, blocks_size, metadata_length, ack_length, msg_len, >>=-eq-parsed, require,
  parse_blocks, parse_front, parse_ack_rest, parse_blocks_rest, parse_rest, parse_body,
  parse_message, Message, parsed,
}
use gro_bro.Bytes.{Bytes, Text, IsByte, be}
use gro_bro.Modbus.Block.{block_size, parse_block, block_bytes, parse_block_sound, Block, IsBlock}
use gro_bro.Modbus.Blocks.{blocks_bytes, length-blocks_bytes}
use gro_bro.Modbus.WriteAck.{WriteAck}
use gro_bro.Modbus.Device.{
  header_size, function_of_value, ModbusFunction, read_input_register, preset_single_register,
}
use gro_bro.Modbus.Metadata.{parse_metadata, Metadata}

-- One round of the loop, read backwards from its answer.
parse_blocks_step :
    (fuel : ℕ) (buffer : Bytes) (offset : ℕ) (bs : List Block) (end : ℕ)
    → parse_blocks (suc fuel) buffer offset ≡ parsed (bs, end)
    → ((bs ≡ []) × (end ≡ offset))
      ⊎ ((b : Block) × (rest : List Block) × (parse_block buffer offset ≡ some b)
          × (parse_blocks fuel buffer (offset + block_size b) ≡ parsed (rest, end))
          × (bs ≡ b ∷ rest))
unfolding parse_blocks
parse_blocks_step fuel buffer offset bs end e = ground arith

parse_blocks_sound :
    (fuel : ℕ) (buffer : Bytes) (offset : ℕ) (bs : List Block) (end : ℕ)
    → All IsByte buffer
    → parse_blocks fuel buffer offset ≡ parsed (bs, end)
    → All IsBlock bs
      × (end ≡ offset + blocks_size bs)
      × (drop offset buffer ≡ blocks_bytes bs ++ drop end buffer)
parse_blocks_sound zero buffer offset bs end h e = unfold parse_blocks in cc
parse_blocks_sound (suc fuel) buffer offset bs end h e =
    elim (parse_blocks_step fuel buffer offset bs end e) [
      | inl (empty, stay) ↦ rw (empty, stay) (tt, omega arith, refl)
      | inr (b, rest, found, more, eq) ↦
          let (valid, bytes) = parse_block_sound buffer offset b h found in
          let (valid_rest, reach, bytes_rest) =
            parse_blocks_sound fuel buffer (offset + block_size b) rest end h more in
          rw eq (
            (valid, valid_rest),
            omega (arith, reach),
            bytes
                ∙ ap (λ t. block_bytes b ++ t) bytes_rest
                ∙ sym (append_assoc (block_bytes b) (blocks_bytes rest) (drop end buffer)),
          )
    ]

abbrev pub HasNoTail : Bytes → ℕ → Type 0
HasNoTail buffer size = (length buffer ≡ size) ⊎ (length buffer ≡ size + 2)

-- What stands behind the header and the metadata: blocks, or an acknowledgement in function 6.
abbrev pub IsRead : ModbusFunction → Bytes → ℕ → List Block → Option WriteAck → Type 0
IsRead f buffer offset blocks ack =
    All IsBlock blocks
    × HasNoTail buffer (offset + blocks_size blocks + ack_length ack)
    × (((f ≡ preset_single_register) × (blocks ≡ []) × (ack ≢ none))
        ⊎ ((f ≢ preset_single_register)
            × (ack ≡ none)
            × (drop offset buffer
                ≡ blocks_bytes blocks ++ drop (offset + blocks_size blocks) buffer)))

IsRead-ack :
    (buffer : Bytes) (offset : ℕ) (blocks : List Block) (ack : Option WriteAck)
    → offset ≤ length buffer
    → parse_ack_rest buffer offset ≡ parsed (blocks, ack)
    → IsRead preset_single_register buffer offset blocks ack
unfolding parse_ack_rest
IsRead-ack buffer offset blocks ack le e = ground arith

parse_blocks_rest-inverse :
    (buffer : Bytes) (offset : ℕ) (blocks : List Block) (ack : Option WriteAck)
    → parse_blocks_rest buffer offset ≡ parsed (blocks, ack)
    → (end : ℕ) × (parse_blocks (suc (length buffer)) buffer offset ≡ parsed (blocks, end))
      × (ack ≡ none)
      × ((length buffer - end ≡ 0) ⊎ (length buffer - end ≡ 2))
unfolding parse_blocks_rest
parse_blocks_rest-inverse buffer offset blocks ack e =
    let ((found, end), read, more) =
      >>=-eq-parsed (parse_blocks (suc (length buffer)) buffer offset) _ e in
    (end, ground arith, ground arith, ground arith)

-- The bytes from `offset` on are the blocks and what follows them.
blocks_tail :
    (buffer : Bytes) (offset : ℕ) (blocks : List Block)
    → offset ≤ length buffer
    → drop offset buffer ≡ blocks_bytes blocks ++ drop (offset + blocks_size blocks) buffer
    → (length buffer - (offset + blocks_size blocks) ≡ 0)
      ⊎ (length buffer - (offset + blocks_size blocks) ≡ 2)
    → HasNoTail buffer (offset + blocks_size blocks + 0)
blocks_tail buffer offset blocks le e two =
    let end = offset + blocks_size blocks in
    ground (
      arith,
      ap length e,
      length-append (blocks_bytes blocks) (drop end buffer),
      length-blocks_bytes blocks,
      length-drop offset buffer,
      length-drop end buffer,
    )

IsRead-blocks :
    (f : ModbusFunction) (buffer : Bytes) (offset : ℕ) (blocks : List Block) (ack : Option WriteAck)
    → f ≢ preset_single_register
    → offset ≤ length buffer
    → All IsByte buffer
    → parse_blocks_rest buffer offset ≡ parsed (blocks, ack)
    → IsRead f buffer offset blocks ack
IsRead-blocks f buffer offset blocks ack ne le h e =
    let (end, found, no_ack, two) = parse_blocks_rest-inverse buffer offset blocks ack e in
    let (valid, reach, bytes) =
      parse_blocks_sound (suc (length buffer)) buffer offset blocks end h found in
    let bytes' : drop offset buffer
        ≡ blocks_bytes blocks ++ drop (offset + blocks_size blocks) buffer =
      subst (λ k. drop offset buffer ≡ blocks_bytes blocks ++ drop k buffer) reach bytes in
    rw no_ack
      (valid, blocks_tail buffer offset blocks le bytes' (rw reach at two), inr (ne, refl, bytes'))

parse_rest_sound :
    (f : ModbusFunction) (buffer : Bytes) (offset : ℕ) (blocks : List Block) (ack : Option WriteAck)
    → offset ≤ length buffer
    → All IsByte buffer
    → parse_rest f buffer offset ≡ parsed (blocks, ack)
    → IsRead f buffer offset blocks ack
unfolding parse_rest
parse_rest_sound preset_single_register buffer offset blocks ack le h e =
    IsRead-ack buffer offset blocks ack le e
parse_rest_sound f buffer offset blocks ack le h e =
    IsRead-blocks f buffer offset blocks ack (λ p. cc) le h e

-- Metadata is there for function 4 alone.
parse_front_sound :
    (f : ModbusFunction) (buffer : Bytes) (metadata : Option Metadata) (offset : ℕ)
    → 38 ≤ length buffer
    → parse_front f buffer ≡ parsed (metadata, offset)
    → (offset ≡ 38 + metadata_length metadata)
      × (offset ≤ length buffer)
      × ((f ≡ read_input_register) ↔ (metadata ≢ none))
unfolding parse_front parse_metadata
parse_front_sound read_input_register buffer metadata offset le e = ground arith
parse_front_sound f buffer metadata offset le e = ground arith

-- The answer behind the header, read backwards.
parse_body-inverse :
    (unknown : ℕ) (id : Text) (f : ModbusFunction) (buffer : Bytes) (m : Message)
    → parse_body unknown id f buffer ≡ parsed m
    → (offset : ℕ) × (parse_front f buffer ≡ parsed (m.metadata, offset))
      × (parse_rest f buffer offset ≡ parsed (m.register_blocks, m.write_ack))
      × (f ≡ m.function)
unfolding parse_body
parse_body-inverse unknown id f buffer m e =
    let ((metadata, offset), front, more) = >>=-eq-parsed (parse_front f buffer) _ e in
    let ((blocks, ack), rest, done) = >>=-eq-parsed (parse_rest f buffer offset) _ more in
    (offset, ground arith, ground arith, ground arith)

-- The answer of the parser, read backwards: the length field, the function code, and the rest.
pub parse_message-inverse :
    (buffer : Bytes) (m : Message)
    → parse_message buffer ≡ parsed m
    → (38 ≤ length buffer)
      × (be (slice 4 6 buffer) ≡ length buffer - 8)
      × (function_of_value (be (slice 7 8 buffer)) ≡ some m.function)
      × ((offset : ℕ) × (parse_front m.function buffer ≡ parsed (m.metadata, offset))
          × (parse_rest m.function buffer offset ≡ parsed (m.register_blocks, m.write_ack)))
unfolding parse_message
parse_message-inverse buffer m e =
    let (_, long, e1) = >>=-eq-parsed (require (leb header_size (length buffer))) _ e in
    let (_, _, e2) = >>=-eq-parsed (require (be (slice 2 4 buffer) == 7)) _ e1 in
    let (_, counted, e3) =
      >>=-eq-parsed (require (be (slice 4 6 buffer) == length buffer - 8)) _ e2 in
    let (f, code, e4) =
      >>=-eq-parsed (from_option (function_of_value (be (slice 7 8 buffer)))) _ e3 in
    let (offset, front, rest, same) = parse_body-inverse _ _ f buffer m e4 in
    (ground arith, ground arith, ground arith, (offset, ground arith, ground arith))

-- A message that the parser accepts from a buffer of bytes is well formed and accounts for every one
-- of them: its blocks stand where the buffer has them and hold two bytes for each register; metadata
-- is there exactly in function 4, an acknowledgement and no block in function 6, and none in any
-- other; and what `msg_len` counts is the buffer without its first six bytes, or without these and a
-- two-byte trailer.
pub parse_message_sound :
    (buffer : Bytes) (m : Message)
    → All IsByte buffer
    → parse_message buffer ≡ parsed m
    → ((m.function ≡ read_input_register) ↔ (m.metadata ≢ none))
      × IsRead m.function buffer (38 + metadata_length m.metadata) m.register_blocks m.write_ack
      × HasNoTail buffer (6 + msg_len m)
unfolding parse_message msg_len
parse_message_sound buffer m h e =
    let (long, counted, code, (offset, front, rest)) = parse_message-inverse buffer m e in
    let (at, inside, meta) = parse_front_sound m.function buffer m.metadata offset long front in
    let read =
      parse_rest_sound m.function buffer offset m.register_blocks m.write_ack inside h rest in
    let read' = subst (λ k. IsRead m.function buffer k m.register_blocks m.write_ack) at read in
    (meta, read', subst (HasNoTail buffer) (omega arith) read'.1)
