-- ===== src/Config/Packets.antt =====
-- Configuration packets of builder.py as the parser reads them, once unscrambled.
use gro_bro.Prelude.{
  ℕ, zero, suc, ◌+◌, ◌-◌, ◌/◌, ◌%◌, ◌<◌, ◌≡◌, sym, ap, ◌∙◌, some, [], ◌∷◌, ◌++◌, append_assoc,
  arith, lt→ltb, le→ltb_false, le→leb, length, drop, replicate, All, length-append, take-append,
  drop-append, drop-drop, All-append,
}
use gro_bro.Builder.{
  scramble, config_device_field, append_crc, finalize_config_packet, build_config_read_packet,
  build_config_write_packet,
}
use gro_bro.Bytes.{Bytes, Text, IsByte, be, ljust, IsSerial}
use gro_bro.Config.Response.{device_text, parse_config_ack, ok, ConfigAck}
use gro_bro.Bytes.Strip.{rstrip-padded, decode_replace-serial, encode_ascii-serial, length-ljust}
use gro_bro.Bytes.Words.{be-word, pack_word_fits}
use gro_bro.Builder.Scramble.{scramble_lem, scramble-scramble_append}

pub replicate-IsByte : (n : ℕ) → All IsByte (replicate n 0)
replicate-IsByte zero = tt
replicate-IsByte (suc n) = (omega arith, replicate-IsByte n)

pub serial-IsByte : (s : Text) → All (λ c. (0 < c) × (c < 128)) s → All IsByte s
serial-IsByte [] h = tt
serial-IsByte (c ∷ s) h = (omega (arith, h.0.1), serial-IsByte s h.1)

config_device_field-serial : (s : Text) → IsSerial 16 s → config_device_field s ≡ some (ljust 16 s)
unfolding config_device_field
config_device_field-serial s h = rw (encode_ascii-serial s h.0) (ground arith)

abbrev pub word_bytes : ℕ → Bytes
word_bytes n = (n / 256) ∷ (n % 256) ∷ []

abbrev raw_packet : ℕ → Text → Bytes → Bytes
raw_packet message_type id payload =
    0
    ∷ 1
    ∷ 0
    ∷ 7
    ∷ ((length payload + 18) / 256)
    ∷ ((length payload + 18) % 256)
    ∷ (message_type / 256)
    ∷ (message_type % 256)
    ∷ (ljust 16 id ++ payload)

abbrev pub ack_of : ℕ → ℕ → Text → ℕ → ConfigAck
ack_of len message_type id register_no = record {
  header = 0 ∷ 1 ∷ 0 ∷ 7 ∷ [];
  message_length = len;
  message_type = message_type;
  device_id = id;
  register_no = register_no;
}

ack_fields :
    (l m a b c d : ℕ) (raw rest : Bytes)
    → length raw ≡ 16
    → parse_config_ack (0 ∷ 1 ∷ 0 ∷ 7 ∷ l ∷ m ∷ a ∷ b ∷ (raw ++ (replicate 14 0 ++ c ∷ d ∷ rest)))
      ≡ ok (ack_of (be (l ∷ m ∷ [])) (be (a ∷ b ∷ [])) (device_text raw) (be (c ∷ d ∷ [])))
unfolding parse_config_ack
ack_fields l m a b c d raw rest size =
    let tail : Bytes = replicate 14 0 ++ c ∷ d ∷ rest in
    let past : drop 30 (raw ++ tail) ≡ c ∷ d ∷ rest =
      sym (drop-drop 16 14 (raw ++ tail)) ∙ rw (drop-append 16 raw tail size) in
    let bytes : Bytes = 0 ∷ 1 ∷ 0 ∷ 7 ∷ l ∷ m ∷ a ∷ b ∷ (raw ++ tail) in
    rw (
      le→ltb_false (length bytes) 40 (omega (arith, size, length-append raw tail)),
      take-append 16 raw tail size,
      past,
    )

pub device_text-ljust : (s : Text) → IsSerial 16 s → device_text (ljust 16 s) ≡ s
device_text-ljust s h = rw (rstrip-padded s (16 - length s) h.0) (decode_replace-serial s h.0)

-- The acknowledgement layout at the front of a packet with fourteen bytes of padding.
parse_config_ack-raw :
    (len message_type : ℕ) (id : Text) (a b : ℕ) (rest : Bytes)
    → IsSerial 16 id
    → parse_config_ack (
        0
        ∷ 1
        ∷ 0
        ∷ 7
        ∷ (len / 256)
        ∷ (len % 256)
        ∷ (message_type / 256)
        ∷ (message_type % 256)
        ∷ (ljust 16 id ++ (replicate 14 0 ++ a ∷ b ∷ rest)))
      ≡ ok (ack_of len message_type id (be (a ∷ b ∷ [])))
unfolding parse_config_ack
parse_config_ack-raw len message_type id a b rest h =
    ack_fields (len / 256) (len % 256) (message_type / 256) (message_type % 256) a b (ljust 16 id)
      rest (length-ljust 16 id h.1)
    ∙ rw (be-word len, be-word message_type, device_text-ljust id h)

write_bytes :
    (n register_no : ℕ) (value : Text)
    → IsSerial 65495 value
    → register_no < 65536
    → n < 65532
    → All IsByte (((word_bytes (n + 4) ++ word_bytes register_no) ++ word_bytes n) ++ value)
write_bytes n register_no value hv hr hn =
    All-append IsByte ((word_bytes (n + 4) ++ word_bytes register_no) ++ word_bytes n) value
      (omega arith) (serial-IsByte value hv.0)

module _ (checksum : Bytes → ℕ) (checksum_word : (p : Bytes) → checksum p < 65536) where
  pub append_crc-word : (p : Bytes) → append_crc checksum p ≡ some (p ++ word_bytes (checksum p))
  unfolding append_crc
  append_crc-word p = ground (arith, checksum_word p)

  finalize_config_packet-raw :
      (message_type : ℕ) (id : Text) (payload : Bytes)
      → message_type < 65536
      → IsSerial 16 id
      → length payload + 18 < 65536
      → finalize_config_packet checksum message_type id payload
        ≡ append_crc checksum (scramble (raw_packet message_type id payload))
  unfolding finalize_config_packet
  finalize_config_packet-raw message_type id payload ht hi fits =
      rw (config_device_field-serial id hi, lt→ltb (length payload + 18) 65536 fits) (ground arith)

  raw_packet-IsByte :
      (message_type : ℕ) (id : Text) (payload : Bytes)
      → message_type < 65536
      → IsSerial 16 id
      → length payload + 18 < 65536
      → All IsByte payload
      → All IsByte (raw_packet message_type id payload)
  raw_packet-IsByte message_type id payload ht hi fits hp =
      let field =
        All-append IsByte id (replicate (16 - length id) 0) (serial-IsByte id hi.0)
          (replicate-IsByte (16 - length id)) in
      let body = All-append IsByte (ljust 16 id) payload field hp in
      (
        omega arith,
        (
          omega arith,
          (
            omega arith,
            (omega arith, (omega arith, (omega arith, (omega arith, (omega arith, body))))),
          ),
        ),
      )

  -- A payload of fourteen zero bytes and a word, in a packet: what is built, and what is read.
  finalize_config_packet-ack :
      (message_type : ℕ) (id : Text) (a b : ℕ) (rest : Bytes)
      → message_type < 65536
      → IsSerial 16 id
      → All IsByte (a ∷ b ∷ rest)
      → length rest + 34 < 65536
      → (pkt : Bytes) × (finalize_config_packet checksum message_type id
            (replicate 14 0 ++ a ∷ b ∷ rest)
          ≡ some pkt)
        × (length pkt ≡ length rest + 42)
        × (parse_config_ack (scramble pkt)
            ≡ ok (ack_of (length rest + 34) message_type id (be (a ∷ b ∷ []))))
  finalize_config_packet-ack message_type id a b rest ht hi hb fits =
      let payload : Bytes = replicate 14 0 ++ a ∷ b ∷ rest in
      let plain = raw_packet message_type id payload in
      let crc = word_bytes (checksum (scramble plain)) in
      let size = length-ljust 16 id hi.1 in
      let bytes =
        raw_packet-IsByte message_type id payload ht hi (omega arith)
          (All-append IsByte (replicate 14 0) (a ∷ b ∷ rest) (replicate-IsByte 14) hb) in
      let (t, back, more) = scramble-scramble_append plain crc bytes (omega arith) in
      (
        scramble plain ++ crc,
        finalize_config_packet-raw message_type id payload ht hi (omega arith)
            ∙ append_crc-word (scramble plain),
        omega (
          arith,
          length-append (scramble plain) crc,
          (scramble_lem plain 0).0,
          size,
          length-append (ljust 16 id) payload,
        ),
        rw (back, append_assoc (ljust 16 id) payload t)
            (parse_config_ack-raw (length payload + 18) message_type id a b (rest ++ t) hi
              ∙ ap (λ (n : ℕ). ok (ack_of n message_type id (be (a ∷ b ∷ [])))) (omega arith)),
      )

  -- With a checksum of two bytes, a read packet for a serial number of at most 16 ASCII characters
  -- and a register number of two bytes is built, has 44 bytes, and unscrambled it is parsed as an
  -- acknowledgement of type 0x0119 from that device with its length field; the word behind the
  -- padding is 1.
  pub build_config_read_packet-ack :
      (id : Text) (register_no : ℕ)
      → IsSerial 16 id
      → register_no < 65536
      → (pkt : Bytes) × (build_config_read_packet checksum id register_no ≡ some pkt)
        × (length pkt ≡ 44)
        × (parse_config_ack (scramble pkt) ≡ ok (ack_of 36 0x0119 id 1))
  unfolding build_config_read_packet
  build_config_read_packet-ack id register_no hi hr =
      let rest = word_bytes register_no in
      let (pkt, built, size, read) =
        finalize_config_packet-ack 0x0119 id 0 1 rest (omega arith) hi (omega arith)
          (omega arith) in
      (
        pkt,
        rw (pack_word_fits register_no hr, le→leb register_no 65535 (omega arith)) built,
        size,
        read,
      )

  -- With a checksum of two bytes, a write packet for a serial number of at most 16 ASCII characters,
  -- a register number of two bytes and an ASCII value of at most 65495 characters without NUL is
  -- built, has 48 bytes and the value's, and unscrambled it is parsed as an acknowledgement of type
  -- 0x0118 from that device with its length field.
  pub build_config_write_packet-ack :
      (id : Text) (register_no : ℕ) (value : Text)
      → IsSerial 16 id
      → register_no < 65536
      → IsSerial 65495 value
      → (pkt : Bytes) × (build_config_write_packet checksum id register_no value ≡ some pkt)
        × (length pkt ≡ 48 + length value)
        × (parse_config_ack (scramble pkt) ≡ ok (ack_of (40 + length value) 0x0118 id 1))
  unfolding build_config_write_packet
  build_config_write_packet-ack id register_no value hi hr hv =
      let n = length value in
      let rest = ((word_bytes (n + 4) ++ word_bytes register_no) ++ word_bytes n) ++ value in
      let (pkt, built, size, read) =
        finalize_config_packet-ack 0x0118 id 0 1 rest (omega arith) hi
          (omega arith, (omega arith, write_bytes n register_no value hv hr (omega arith)))
          (omega arith) in
      (
        pkt,
        rw
            (
              le→leb register_no 65535 (omega arith),
              encode_ascii-serial value hv.0,
              le→leb n 65495 hv.1,
              pack_word_fits (n + 4) (omega arith),
              pack_word_fits register_no hr,
              pack_word_fits n (omega arith),
            )
            built,
        omega (arith, size),
        read ∙ ap (λ (n : ℕ). ok (ack_of n 0x0118 id 1)) (omega arith),
      )
