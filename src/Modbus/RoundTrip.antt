-- ===== src/Modbus/RoundTrip.antt =====
-- What a message builds is parsed back, with the two-byte trailer and only with it.
use gro_bro.Prelude.{
  ℕ, suc, ◌+◌, ◌-◌, ◌/◌, ◌%◌, ◌<◌, ◌≡◌, refl, sym, ap, ◌∙◌, ◌≢◌, Option, none, some, List, [], ◌∷◌,
  ◌++◌, append-nil, append_assoc, arith, length, drop, All, length-append, length-drop, take-append,
  drop-append, drop-drop,
}
use gro_bro.Bytes.{Bytes, Text, ljust, IsSerial}
use gro_bro.Modbus.Device.{
  function_value, function_of_value-value, function_value-IsByte, encode_modbus_device_id-serial,
  ModbusFunction, read_input_register, preset_single_register,
}
use gro_bro.Modbus.Metadata.{
  build_metadata, metadata_bytes, build_metadata-valid, length-metadata_bytes, parse_metadata-bytes,
  DateTime, Metadata,
}
use gro_bro.Modbus.Message.{
  blocks_size, metadata_length, ack_length, msg_len, parse_front, parse_ack_rest, parse_blocks_rest,
  parse_rest, parse_body, parse_message, Message, parsed, refused,
}
use gro_bro.Modbus.Build.{
  optional, build_blocks, build_message, HasStamp, HasAck, FitsFront, FitsRest, IsMessage,
}
use gro_bro.Modbus.WriteAck.{
  build_write_ack, ack_bytes, build_write_ack-IsAck, parse_write_ack-bytes, WriteAck,
}
use gro_bro.Modbus.Block.{Block, IsBlock}
use gro_bro.Modbus.Blocks.{
  blocks_bytes, build_blocks-IsBlock, length-blocks_bytes, length-le-blocks_size,
  parse_blocks-bytes,
}
use gro_bro.Bytes.Strip.{strip-decode-ljust, length-ljust}

-- The bytes of a message's metadata, and how the parser reads them behind the header.
abbrev Front : ModbusFunction → Option Metadata → Type 0
Front f metadata =
    (bytes : Bytes) × (optional build_metadata metadata ≡ some bytes)
    × (length bytes ≡ metadata_length metadata)
    × ((buffer rest : Bytes)
        → drop 38 buffer ≡ bytes ++ rest
        → parse_front f buffer ≡ parsed (metadata, 38 + metadata_length metadata))

no_metadata :
    (f : ModbusFunction)
    → ((buffer : Bytes) → parse_front f buffer ≡ parsed (none, 38))
    → Front f none
no_metadata f read = ([], refl, refl, λ buffer rest e. read buffer)

front_with :
    (sn : Text) (o : Option DateTime)
    → IsSerial 30 sn
    → HasStamp o
    → Front read_input_register (some (record { device_sn = sn; timestamp = o }))
unfolding parse_front
front_with sn none h k = absurd k
front_with sn (some t) h k = (
  metadata_bytes sn t,
  build_metadata-valid sn t h k,
  length-metadata_bytes sn t h,
  λ buffer rest e. rw (parse_metadata-bytes sn t buffer 38 rest h k e),
)

front : (f : ModbusFunction) (metadata : Option Metadata) → FitsFront f metadata → Front f metadata
unfolding parse_front
front read_input_register none h = absurd h
front read_input_register (some m) h = front_with m.device_sn m.timestamp h.0 h.1
front f none h = no_metadata f (λ buffer. refl)
front f (some m) h = cc

-- The bytes behind the metadata, and how the parser reads them before a two-byte trailer.
abbrev Rest : ModbusFunction → List Block → Option WriteAck → Type 0
Rest f blocks ack =
    (bytes : Bytes × Bytes) × (build_blocks blocks ≡ some bytes.0)
    × (optional build_write_ack ack ≡ some bytes.1)
    × (length (bytes.0 ++ bytes.1) ≡ blocks_size blocks + ack_length ack)
    × ((buffer : Bytes) (offset : ℕ) (trailer : Bytes)
        → drop offset buffer ≡ (bytes.0 ++ bytes.1) ++ trailer
        → length trailer ≡ 2
        → parse_rest f buffer offset ≡ parsed (blocks, ack))

-- How far the blocks and the trailer reach.
blocks_reach :
    (blocks : List Block) (buffer : Bytes) (offset : ℕ) (trailer : Bytes)
    → drop offset buffer ≡ blocks_bytes blocks ++ trailer
    → length trailer ≡ 2
    → (length blocks < suc (length buffer)) × (length buffer - (offset + blocks_size blocks) ≡ 2)
blocks_reach blocks buffer offset trailer e two = omega (
  arith,
  length-le-blocks_size blocks,
  length-blocks_bytes blocks,
  length-drop offset buffer,
  ap length e,
  length-append (blocks_bytes blocks) trailer,
)

rest_blocks :
    (f : ModbusFunction) (blocks : List Block)
    → All IsBlock blocks
    → ((buffer : Bytes) (offset : ℕ) → parse_rest f buffer offset ≡ parse_blocks_rest buffer offset)
    → Rest f blocks none
unfolding parse_blocks_rest
rest_blocks f blocks h same = (
  (blocks_bytes blocks, []),
  build_blocks-IsBlock blocks h,
  refl,
  rw (append-nil, length-blocks_bytes) (omega arith),
  λ buffer offset trailer e two.
      let e' : drop offset buffer ≡ blocks_bytes blocks ++ trailer = rw append-nil at e in
      let (fuel, left) = blocks_reach blocks buffer offset trailer e' two in
      let short : length trailer < 6 = omega arith in
      rw
        (
          same,
          parse_blocks-bytes blocks (suc (length buffer)) buffer offset trailer h short e' fuel,
        )
        (rw left),
)

rest_ack : (ack : Option WriteAck) → HasAck ack → Rest preset_single_register [] ack
unfolding parse_rest parse_ack_rest
rest_ack none h = absurd h
rest_ack (some a) h = (
  ([], ack_bytes a),
  refl,
  build_write_ack-IsAck a h,
  refl,
  λ buffer offset trailer e two.
      rw (parse_write_ack-bytes a buffer offset trailer h e, ← length-drop offset buffer, e)
        (ground arith),
)

rest :
    (f : ModbusFunction) (blocks : List Block) (ack : Option WriteAck)
    → FitsRest f blocks ack
    → Rest f blocks ack
unfolding parse_rest
rest preset_single_register [] ack h = rest_ack ack h.1
rest preset_single_register (b ∷ bs) ack h = cc
rest f blocks none h = rest_blocks f blocks h.0 (λ buffer offset. refl)
rest f blocks (some a) h = cc

abbrev header_bytes : ℕ → ℕ → ModbusFunction → Bytes → Bytes
header_bytes unknown len f rest =
    (unknown / 256)
    ∷ (unknown % 256)
    ∷ 0
    ∷ 7
    ∷ (len / 256)
    ∷ (len % 256)
    ∷ 1
    ∷ function_value f
    ∷ rest

-- A header whose length field counts all but eight bytes is accepted, and one that does not is not.
parse_message-header :
    (unknown len : ℕ) (f : ModbusFunction) (id : Text) (body : Bytes)
    → IsSerial 30 id
    → len ≡ 30 + length body
    → parse_message (header_bytes unknown len f (ljust 30 id ++ body))
      ≡ parse_body unknown id f (header_bytes unknown len f (ljust 30 id ++ body))
unfolding parse_message
parse_message-header unknown len f id body h e =
    let size = length-ljust 30 id h.1 in
    rw (take-append 30 (ljust 30 id) body size, strip-decode-ljust 30 id h)
      (ground (arith, size, length-append (ljust 30 id) body, function_of_value-value f))

parse_message-wrong_len :
    (unknown len : ℕ) (f : ModbusFunction) (rest : Bytes)
    → len ≢ length rest
    → parse_message (header_bytes unknown len f rest) ≡ refused
unfolding parse_message
parse_message-wrong_len unknown len f rest ne = ground arith

regroup {ℓ} :
    {A : Type ℓ} (a b c d e : List A) → (((a ++ b) ++ c) ++ d) ++ e ≡ a ++ (b ++ ((c ++ d) ++ e))
regroup a b c d e = simp append_assoc

-- What a message builds, from the bytes of its parts.
build_message-parts :
    (m : Message) {fb bb ab : Bytes}
    → IsMessage m
    → optional build_metadata m.metadata ≡ some fb
    → build_blocks m.register_blocks ≡ some bb
    → optional build_write_ack m.write_ack ≡ some ab
    → build_message m
      ≡ some (
          header_bytes m.unknown
            (msg_len m)
            m.function
            (((ljust 30 m.device_id ++ fb) ++ bb) ++ ab))
unfolding build_message
build_message-parts m h ef eb ea =
    rw (encode_modbus_device_id-serial m.device_id h.serial, ef, eb, ea)
      (ground (arith, h.unknown_word, h.len_word, function_value-IsByte m.function))

-- Behind the header the parser reads the parts one after the other.
parse_body-parts :
    (m : Message) (buffer trailer : Bytes) (fr : Front m.function m.metadata)
    (re : Rest m.function m.register_blocks m.write_ack)
    → drop 38 buffer ≡ fr.0 ++ ((re.0.0 ++ re.0.1) ++ trailer)
    → length trailer ≡ 2
    → parse_body m.unknown m.device_id m.function buffer ≡ parsed m
unfolding parse_body
parse_body-parts m buffer trailer (fb, ef, lf, read_front) ((bb, ab), eb, ea, lr, read_rest) e two =
    let ml = metadata_length m.metadata in
    let tail : drop (38 + ml) buffer ≡ (bb ++ ab) ++ trailer =
      sym (drop-drop 38 ml buffer) ∙ rw e (drop-append ml fb _ lf) in
    rw (read_front buffer _ e, read_rest buffer (38 + ml) trailer tail two)

-- The built bytes of a message, without and with a trailer behind them.
build_parse :
    (m : Message)
    → IsMessage m
    → (bytes : Bytes) × (build_message m ≡ some bytes)
      × (parse_message bytes ≡ refused)
      × ((trailer : Bytes) → length trailer ≡ 2 → parse_message (bytes ++ trailer) ≡ parsed m)
unfolding msg_len
build_parse m h =
    let fr = front m.function m.metadata h.front in
    let re = rest m.function m.register_blocks m.write_ack h.rest in
    let (fb, ef, lf, read_front) = fr in
    let ((bb, ab), eb, ea, lr, read_rest) = re in
    let id = ljust 30 m.device_id in
    let size = length-ljust 30 m.device_id h.serial.1 in
    (
      header_bytes m.unknown (msg_len m) m.function (((id ++ fb) ++ bb) ++ ab),
      build_message-parts m h ef eb ea,
      parse_message-wrong_len m.unknown (msg_len m) m.function (((id ++ fb) ++ bb) ++ ab) (
          omega (
            arith,
            size,
            lf,
            lr,
            length-append bb ab,
            length-append id fb,
            length-append (id ++ fb) bb,
            length-append ((id ++ fb) ++ bb) ab,
          )),
      λ trailer two.
          rw
            (
              regroup id fb bb ab trailer,
              parse_message-header m.unknown (msg_len m) m.function m.device_id
                  (fb ++ ((bb ++ ab) ++ trailer)) h.serial
                  (omega (
                    arith,
                    lf,
                    lr,
                    two,
                    length-append fb ((bb ++ ab) ++ trailer),
                    length-append (bb ++ ab) trailer,
                  )),
            )
            (parse_body-parts m _ trailer fr re
              (drop-append 30 id (fb ++ ((bb ++ ab) ++ trailer)) size) two),
    )

-- Every message whose parts fit is built, and its bytes followed by any two-byte trailer are parsed
-- back to the same message.
pub parse_message-build :
    (m : Message) (trailer : Bytes)
    → IsMessage m
    → length trailer ≡ 2
    → (bytes : Bytes) × (build_message m ≡ some bytes)
      × (parse_message (bytes ++ trailer) ≡ parsed m)
parse_message-build m trailer h two =
    let (bytes, built, bare, trailed) = build_parse m h in (bytes, built, trailed trailer two)

-- Every message whose parts fit is built, and its bytes alone, with no trailer, are refused.
pub parse_message-build_bare :
    (m : Message)
    → IsMessage m
    → (bytes : Bytes) × (build_message m ≡ some bytes) × (parse_message bytes ≡ refused)
parse_message-build_bare m h =
    let (bytes, built, bare, trailed) = build_parse m h in (bytes, built, bare)
