-- ===== src/Modbus/CommandTrip.antt =====
-- Commands are parsed back from what they build, with or without the trailer, and what parses is
-- well formed.
use gro_bro.Prelude.{
  ℕ, ◌+◌, ◌-◌, ◌*◌, ◌/◌, ◌%◌, ◌≤◌, ◌<◌, ◌≡◌, refl, sym, ap, ◌∙◌, ◌⊎◌, true, not, ◌||◌, some, [],
  ◌∷◌, ◌++◌, append_assoc, arith, ◌==◌, length, drop, slice, length-append, take-append,
  drop-append, drop-drop,
}
use gro_bro.Modbus.Command.{
  command_size, unpack_command_header, parse_multiple, parse_single, pack_command, build_multiple,
  build_single, CommandHeader, FunctionMultiple, FunctionSingle,
}
use gro_bro.Modbus.Device.{
  function_value, function_of_value-value, function_value-IsByte, encode_modbus_device_id-serial,
  ModbusFunction, preset_multiple_register,
}
use gro_bro.Bytes.{Bytes, Text, be, ljust, decode_ignore, strip, IsSerial}
use gro_bro.Bytes.Strip.{strip-decode-ljust, length-ljust}
use gro_bro.Bytes.Words.{be-word}

abbrev pub command_bytes : ℕ → ModbusFunction → Text → ℕ → ℕ → Bytes
command_bytes len f id first second =
    0
    ∷ 1
    ∷ 0
    ∷ 7
    ∷ (len / 256)
    ∷ (len % 256)
    ∷ 1
    ∷ function_value f
    ∷ (ljust 30 id ++ (first / 256) ∷ (first % 256) ∷ (second / 256) ∷ (second % 256) ∷ [])

pub pack_command-serial :
    (len : ℕ) (f : ModbusFunction) (id : Text) (first second : ℕ)
    → len < 65536
    → IsSerial 30 id
    → first < 65536
    → second < 65536
    → pack_command len f id first second ≡ some (command_bytes len f id first second)
unfolding pack_command
pack_command-serial len f id first second hl hi ha hb = rw (encode_modbus_device_id-serial id hi) (
    ground (
      arith,
      function_value-IsByte f,
      append_assoc (ljust 30 id) ((first / 256) ∷ (first % 256) ∷ [])
          ((second / 256) ∷ (second % 256) ∷ []),
    ))

abbrev header_of : ℕ → ModbusFunction → Bytes → ℕ → ℕ → CommandHeader
header_of len f raw first second = record {
  function = f;
  device_id_raw = raw;
  first = first;
  second = second;
  core_length = len + 6;
}

-- The command's fields, for any device field of thirty bytes.
unpack_fields :
    (len : ℕ) (f : ModbusFunction) (raw : Bytes) (a b c d : ℕ) (rest : Bytes)
    → length raw ≡ 30
    → 36 ≤ len
    → (length rest + 36 ≡ len) ⊎ (length rest + 36 ≡ len + 2)
    → unpack_command_header (
        0
        ∷ 1
        ∷ 0
        ∷ 7
        ∷ (len / 256)
        ∷ (len % 256)
        ∷ 1
        ∷ function_value f
        ∷ (raw ++ a ∷ b ∷ c ∷ d ∷ rest))
      ≡ some (header_of len f raw (be (a ∷ b ∷ [])) (be (c ∷ d ∷ [])))
unfolding unpack_command_header
unpack_fields len f raw a b c d rest size long fits =
    let tail : Bytes = a ∷ b ∷ c ∷ d ∷ rest in
    let past : drop 32 (raw ++ tail) ≡ c ∷ d ∷ rest =
      sym (drop-drop 30 2 (raw ++ tail)) ∙ rw (drop-append 30 raw tail size) in
    rw
      (
        take-append 30 raw tail size,
        drop-append 30 raw tail size,
        past,
        length-append raw tail,
        size,
      )
      (ground (arith, function_of_value-value f))

-- The header that a packed command has, before whatever follows it.
unpack_command_header-pack :
    (len : ℕ) (f : ModbusFunction) (id : Text) (first second : ℕ) (rest : Bytes)
    → IsSerial 30 id
    → 36 ≤ len
    → (length rest + 36 ≡ len) ⊎ (length rest + 36 ≡ len + 2)
    → unpack_command_header (command_bytes len f id first second ++ rest)
      ≡ some (header_of len f (ljust 30 id) first second)
unpack_command_header-pack len f id first second rest h long fits =
    let words : Bytes = (first / 256) ∷ (first % 256) ∷ (second / 256) ∷ (second % 256) ∷ [] in
    rw (append_assoc (ljust 30 id) words rest) (
      unpack_fields len f (ljust 30 id) (first / 256) (first % 256) (second / 256) (second % 256)
        rest (length-ljust 30 id h.1) long fits
      ∙ rw (be-word first, be-word second))

pub length-command_bytes :
    (len : ℕ) (f : ModbusFunction) (id : Text) (first second : ℕ)
    → IsSerial 30 id
    → length (command_bytes len f id first second) ≡ 42
length-command_bytes len f id first second h = omega (
  arith,
  length-ljust 30 id h.1,
  length-append (ljust 30 id)
      ((first / 256) ∷ (first % 256) ∷ (second / 256) ∷ (second % 256) ∷ []),
)

abbrev pub IsTrailer : Bytes → Type 0
IsTrailer trailer = (length trailer ≡ 0) ⊎ (length trailer ≡ 2)

pub record IsSingle (c : FunctionSingle) : Type 0 where
  pub serial : IsSerial 30 c.device_id
  pub register_word : c.register_no < 65536
  pub value_word : c.value < 65536

-- Every single-register command whose fields fit is built, and its bytes are parsed back to it,
-- alone and with a two-byte trailer.
pub parse_single-build :
    (c : FunctionSingle) (trailer : Bytes)
    → IsSingle c
    → IsTrailer trailer
    → (bytes : Bytes) × (build_single c ≡ some bytes) × (parse_single (bytes ++ trailer) ≡ some c)
unfolding build_single parse_single
parse_single-build c trailer h t = (
  command_bytes 36 c.function c.device_id c.register_no c.value,
  pack_command-serial 36 c.function c.device_id c.register_no c.value (omega arith) h.serial
      h.register_word h.value_word,
  rw
      (unpack_command_header-pack 36 c.function c.device_id c.register_no c.value trailer h.serial
        (omega arith) (ground arith))
      (rw (strip-decode-ljust 30 c.device_id h.serial)),
)

-- A command for several registers; function 16 carries two bytes for each of them.
pub record IsMultiple (c : FunctionMultiple) : Type 0 where
  pub serial : IsSerial 30 c.device_id
  pub ordered : c.start ≤ c.end
  pub in_range : c.end < 65536
  pub len_word : 36 + length c.values < 65536
  pub filled : c.function ≡ preset_multiple_register → length c.values ≡ (c.end - c.start + 1) * 2

-- The test on function 16 passes.
filled_test :
    (f : ModbusFunction) (n m : ℕ)
    → (f ≡ preset_multiple_register → n ≡ m)
    → not (function_value f == 16) || n == m ≡ true
unfolding function_value
filled_test preset_multiple_register n m h = ground (arith, h refl)
filled_test f n m h = ground arith

parse_multiple-header :
    (buffer : Bytes) (h : CommandHeader) (values : Bytes)
    → unpack_command_header buffer ≡ some h
    → slice command_size h.core_length buffer ≡ values
    → h.first ≤ h.second
    → not (function_value h.function == 16) || length values == (h.second - h.first + 1) * 2 ≡ true
    → parse_multiple buffer
      ≡ some (record {
        device_id = strip (decode_ignore h.device_id_raw);
        function = h.function;
        start = h.first;
        end = h.second;
        values = values;
      })
unfolding parse_multiple
parse_multiple-header buffer h values e cut ordered filled = rw (e, cut, filled) (ground arith)

values_in_place :
    (n : ℕ) (header values trailer : Bytes)
    → length header ≡ 42
    → length values ≡ n
    → slice 42 (36 + n + 6) (header ++ (values ++ trailer)) ≡ values
values_in_place n header values trailer size same =
    rw (drop-append 42 header (values ++ trailer) size)
      (take-append (36 + n + 6 - 42) values trailer (omega arith))

-- Every command for several registers whose fields fit is built, and its bytes are parsed back to
-- it, alone and with a two-byte trailer.
pub parse_multiple-build :
    (c : FunctionMultiple) (trailer : Bytes)
    → IsMultiple c
    → IsTrailer trailer
    → (bytes : Bytes) × (build_multiple c ≡ some bytes)
      × (parse_multiple (bytes ++ trailer) ≡ some c)
unfolding build_multiple
parse_multiple-build c trailer h t =
    let len = 36 + length c.values in
    let header = command_bytes len c.function c.device_id c.start c.end in
    let header_size' = length-command_bytes len c.function c.device_id c.start c.end h.serial in
    let unpacked =
      unpack_command_header-pack len c.function c.device_id c.start c.end (c.values ++ trailer)
        h.serial (omega arith) (ground (arith, length-append c.values trailer)) in
    (
      header ++ c.values,
      rw (
          pack_command-serial len c.function c.device_id c.start c.end h.len_word h.serial
            (omega (arith, h.ordered, h.in_range)) h.in_range),
      ap parse_multiple (append_assoc header c.values trailer)
          ∙ parse_multiple-header (header ++ (c.values ++ trailer))
              (header_of len c.function (ljust 30 c.device_id) c.start c.end) c.values unpacked
              (values_in_place (length c.values) header c.values trailer header_size' refl)
              h.ordered
              (filled_test c.function (length c.values) ((c.end - c.start + 1) * 2) h.filled)
          ∙ rw (strip-decode-ljust 30 c.device_id h.serial),
    )
