-- ===== src/Home/Wire.antt =====
-- A setting of Home Assistant on its way to the device.
use gro_bro.Prelude.{
  ◌>>=◌, ℕ, ◌-◌, ◌/◌, ◌%◌, ◌<◌, ◌≡◌, refl, sym, ap, ◌∙◌, inl, inr, Option, none, some, List, [],
  ◌∷◌, ◌++◌, arith, if◌then◌else◌, Bool-cases, if_yes, if_none, length, replicate, All, All-append,
}
use gro_bro.Home.Commands.{
  parsed_value, command_topic, or_raises, send_command, make_modbus_command, handle_set,
  CommandType, value, sends,
}
use gro_bro.Config.Packets.{replicate-IsByte, serial-IsByte, word_bytes, append_crc-word}
use gro_bro.Modbus.Device.{
  function_value-IsByte, ModbusFunction, preset_single_register, read_single_register,
}
use gro_bro.Bytes.{Bytes, Text, IsByte, ljust, IsSerial}
use gro_bro.Modbus.Command.{parse_single, build_single, FunctionSingle}
use gro_bro.Family.{is_gateway_device}
use gro_bro.Modbus.CommandTrip.{
  command_bytes, pack_command-serial, length-command_bytes, parse_single-build, IsSingle,
}
use gro_bro.Client.State.{ptq_of}
use gro_bro.Builder.{scramble, append_crc}
use gro_bro.Builder.Scramble.{scramble-scramble_append}
use gro_bro.Register.{pos}

command_bytes-IsByte :
    (f : ModbusFunction) (id : Text) (first second : ℕ)
    → IsSerial 30 id
    → first < 65536
    → second < 65536
    → All IsByte (command_bytes 36 f id first second)
command_bytes-IsByte f id first second hi ha hb =
    let words : All IsByte ((first / 256) ∷ (first % 256) ∷ (second / 256) ∷ (second % 256) ∷ []) =
      omega arith in
    let field =
      All-append IsByte id (replicate (30 - length id) 0) (serial-IsByte id hi.0)
        (replicate-IsByte (30 - length id)) in
    let body =
      All-append IsByte (ljust 30 id)
        ((first / 256) ∷ (first % 256) ∷ (second / 256) ∷ (second % 256) ∷ []) field words in
    (
      omega arith,
      (
        omega arith,
        (
          omega arith,
          (
            omega arith,
            (omega arith, (omega arith, (omega arith, (function_value-IsByte f, body)))),
          ),
        ),
      ),
    )

abbrev or_none : Option Bytes → Bytes
or_none none = []
or_none (some b) = b

-- The device that a command reaches: the inverter behind a gateway, if it is known.
abbrev pub endpoint_of : List (Text × Text) → Text → Option Text
endpoint_of gateways device_id =
    if is_gateway_device device_id then ptq_of device_id gateways else some device_id

module _ (checksum : Bytes → ℕ) (checksum_word : (p : Bytes) → checksum p < 65536) where
  -- The packet of a command, and what is read from it.
  build_single-scrambled :
      (c : FunctionSingle)
      → IsSingle c
      → (payload : Bytes) × ((do bytes ← build_single c; append_crc checksum (scramble bytes))
          ≡ some payload)
        × (parse_single (scramble payload) ≡ some c)
  unfolding build_single
  build_single-scrambled c h =
      let core = command_bytes 36 c.function c.device_id c.register_no c.value in
      let made : build_single c ≡ some core =
        pack_command-serial 36 c.function c.device_id c.register_no c.value (omega arith) h.serial
          h.register_word h.value_word in
      let crc = word_bytes (checksum (scramble core)) in
      let in_bytes =
        command_bytes-IsByte c.function c.device_id c.register_no c.value h.serial h.register_word
          h.value_word in
      let size = length-command_bytes 36 c.function c.device_id c.register_no c.value h.serial in
      let (t, seen, two) = scramble-scramble_append core crc in_bytes (omega arith) in
      let (bytes, built, back) = parse_single-build c t h (inr two) in
      let same : bytes ≡ core = ap or_none (sym built ∙ made) in
      (
        scramble core ++ crc,
        rw made (append_crc-word checksum checksum_word (scramble core)),
        ap parse_single (seen ∙ ap (λ (b : Bytes). b ++ t) (sym same)) ∙ back,
      )

  send_command-endpoint_of :
      (gateways : List (Text × Text)) (d : ℕ) (endpoint : Text) (c : FunctionSingle)
      → endpoint_of gateways c.device_id ≡ some (d ∷ endpoint)
      → IsSingle (record c { device_id = d ∷ endpoint })
      → (payload : Bytes) × (send_command checksum gateways c
          ≡ sends (command_topic (d ∷ endpoint)) payload)
        × (parse_single (scramble payload) ≡ some (record c { device_id = d ∷ endpoint }))
  unfolding send_command
  send_command-endpoint_of gateways d endpoint c e h =
      let (payload, made, back) =
        build_single-scrambled (record c { device_id = d ∷ endpoint }) h in
      (
        payload,
        elim (Bool-cases (is_gateway_device c.device_id)) [
          | inl gateway ↦
              let inverter : ptq_of c.device_id gateways ≡ some (d ∷ endpoint) =
                sym (if_yes (some c.device_id) gateway) ∙ e in
              rw (send_command, gateway, inverter, made) refl
          | inr own ↦
              let same : c.device_id ≡ d ∷ endpoint =
                ap or_none (sym (if_none (ptq_of c.device_id gateways) own) ∙ e) in
              rw (send_command, own)
                (ap
                    (λ (i : Text). or_raises checksum i (do
                      bytes ← build_single (record c { device_id = i })
                      append_crc checksum (scramble bytes)))
                    same
                  ∙ rw made refl)
        ],
        back,
      )

  -- With a checksum of two bytes, for a setting of Home Assistant with a value below 65536 and a
  -- register number below 65536 of a device whose endpoint is known, itself or the inverter behind a
  -- gateway, and is a serial number of 1 to 30 ASCII characters: two packets are sent, both on the topic
  -- of the endpoint, which unscrambled are parsed as the write of the value to this register of the
  -- endpoint, and then as a read of this register, whose value field is the register number again.
  pub handle_set-endpoint_of :
      (gateways : List (Text × Text)) (type : CommandType) (device_id : Text) (register_no v d : ℕ)
      (endpoint : Text) (options : List (Text × Text)) (payload : Text)
      → parsed_value type options payload ≡ value (pos v)
      → endpoint_of gateways device_id ≡ some (d ∷ endpoint)
      → IsSerial 30 (d ∷ endpoint)
      → register_no < 65536
      → v < 65536
      → (write read : Bytes) × (handle_set checksum gateways type device_id register_no options
            payload
          ≡ sends (command_topic (d ∷ endpoint)) write
            ∷ sends (command_topic (d ∷ endpoint)) read
            ∷ [])
        × (parse_single (scramble write)
            ≡ some (record {
              device_id = d ∷ endpoint;
              function = preset_single_register;
              register_no = register_no;
              value = v;
            }))
        × (parse_single (scramble read)
            ≡ some (record {
              device_id = d ∷ endpoint;
              function = read_single_register;
              register_no = register_no;
              value = register_no;
            }))
  unfolding handle_set
  handle_set-endpoint_of gateways type device_id register_no v d endpoint options payload set known
        hs hr hv =
      let (write, sent, back) =
        send_command-endpoint_of gateways d endpoint
          (make_modbus_command checksum device_id preset_single_register register_no (some v)) known
          (record { serial = hs; register_word = hr; value_word = hv }) in
      let (read, sent_read, back_read) =
        send_command-endpoint_of gateways d endpoint
          (make_modbus_command checksum device_id read_single_register register_no none) known
          (record { serial = hs; register_word = hr; value_word = hr }) in
      (write, read, rw (set, sent, sent_read) refl, back, back_read)
