-- ===== src/Client/Route.antt =====
-- The branch that `__on_message` takes for a Modbus message with input registers.
use gro_bro.Prelude.{
  ℕ, ◌+◌, ◌-◌, ◌*◌, ◌%◌, ◌≤◌, ◌≡◌, refl, sym, ap, ◌∙◌, ◌≢◌, inl, inr, Bool, true, false, ◌||◌, none,
  some, List, if◌then◌else◌, [], ◌∷◌, ◌++◌, arith, ◌==◌, le→ltb_false, if_none, length, slice,
}
use gro_bro.Bytes.{Bytes, Text, be}
use gro_bro.Modbus.Device.{function_of_value, read_input_register}
use gro_bro.Battery.Slots.{contains}
use gro_bro.Modbus.Message.{parse_message, Message, parsed}
use gro_bro.Client.Receive.{
  type_4, msg_type, is_config_packet, is_forwarded, noah_or_modbus, dispatch, cloud_actions,
  with_actions, on_message,
}
use gro_bro.Protocol.Decoders.{parse_noah_message}
use gro_bro.Protocol.Dispatch.{known_types, parse_noah_message_cases}
use gro_bro.Modbus.Sound.{parse_message-inverse}
use gro_bro.Config.Tlv.{done}
use gro_bro.Register.{ℤ, Value}
use gro_bro.Family.{is_text, get_known_registers, RegisterMap}
use gro_bro.Client.Reported.{IsTarget, report, message_actions-report}
use gro_bro.Client.Telemetry.{message_actions, modbus_packet, Registers}
use gro_bro.Client.Policy.{CloudForwardingPolicy, allows_device}
use gro_bro.Client.State.{Bridge, Packet, Action, to_cloud}
use gro_bro.Client.Topic.{extract_device_id}
use gro_bro.Builder.{scramble}
use gro_bro.Builder.Scramble.{scramble_lem}

word_at_6 :
    (b : Bytes) → 8 ≤ length b → be (slice 6 8 b) ≡ be (slice 6 7 b) * 256 + be (slice 7 8 b)
word_at_6 [] le = absurd (omega arith)
word_at_6 (b0 ∷ []) le = absurd (omega arith)
word_at_6 (b0 ∷ b1 ∷ []) le = absurd (omega arith)
word_at_6 (b0 ∷ b1 ∷ b2 ∷ []) le = absurd (omega arith)
word_at_6 (b0 ∷ b1 ∷ b2 ∷ b3 ∷ []) le = absurd (omega arith)
word_at_6 (b0 ∷ b1 ∷ b2 ∷ b3 ∷ b4 ∷ []) le = absurd (omega arith)
word_at_6 (b0 ∷ b1 ∷ b2 ∷ b3 ∷ b4 ∷ b5 ∷ []) le = absurd (omega arith)
word_at_6 (b0 ∷ b1 ∷ b2 ∷ b3 ∷ b4 ∷ b5 ∷ b6 ∷ []) le = absurd (omega arith)
word_at_6 (b0 ∷ b1 ∷ b2 ∷ b3 ∷ b4 ∷ b5 ∷ b6 ∷ b7 ∷ rest) le = omega arith

code_4 : (n : ℕ) → function_of_value n ≡ some read_input_register → n ≡ 4
unfolding function_of_value
code_4 n e = ground arith

-- The type of a message with function 4, whatever its address.
msg_type_4 :
    (b : Bytes) (m : Message)
    → parse_message b ≡ parsed m
    → m.function ≡ read_input_register
    → msg_type b ≡ be (slice 6 7 b) * 256 + 4
msg_type_4 b m e f =
    let (long, counted, code, rest) = parse_message-inverse b m e in
    word_at_6 b (omega arith)
    ∙ ap (λ n. be (slice 6 7 b) * 256 + n) (code_4 (be (slice 7 8 b)) (code ∙ ap some f))

unknown_type : (n : ℕ) → contains (n * 256 + 4) known_types ≡ false
unknown_type n = ground arith

no_decoder :
    (b : Bytes) (n : ℕ) → 8 ≤ length b → msg_type b ≡ n * 256 + 4 → parse_noah_message b ≡ done none
no_decoder b n long e = elim (parse_noah_message_cases b) [
  | inl (short, none_of) ↦ none_of
  | inr (enough, inl (no_type, none_of)) ↦ none_of
  | inr (enough, inr (has_type, d, found, typed)) ↦
      let wrong : true ≡ false =
        sym has_type ∙ ap (λ (t : ℕ). contains t known_types) e ∙ unknown_type n in
      absurd cc
]

not_type : (n k t : ℕ) → t ≡ n * 256 + 4 → k % 256 ≢ 4 → (t == k) ≡ false
not_type n k t e ne = ground arith

-- The packet lengths that stand for a configuration packet, by the length field alone.
abbrev pub is_config_size : ℕ → Bool
is_config_size n = n == 348 || n == 349 || n == 395

plain_size :
    (four type size n : ℕ)
    → type ≡ n * 256 + 4
    → four ≡ size - 8
    → 38 ≤ size
    → is_config_size size ≡ false
    → (four == 340 || four == 341 || four == 387 || type == 0x0129) ≡ false
plain_size four type size n e counted long plain = ground arith

pub none_stop : {a b c : Bool} → a ≡ false → b ≡ false → c ≡ false → (a || b || c) ≡ false
none_stop ha hb hc = rw (ha, hb, hc) refl

module _ (Float : Type 0) (rounded : ℤ → Float) (scaled : ℤ → Float → Float)
    (shifted : ℤ → Float → Float → Float) (exceeds is_one : Float → Bool)
    (maps : RegisterMap → Registers Float rounded scaled shifted exceeds is_one) where
  abbrev V : Type 0
  V = Value Float rounded scaled shifted

  dispatch-message :
      (saved : Bool) (device_id : Text) (b : Bytes) (m : Message) (s : Bridge)
      → parse_message b ≡ parsed m
      → m.function ≡ read_input_register
      → is_config_size (length b) ≡ false
      → dispatch Float rounded scaled shifted exceeds is_one maps saved device_id b s
        ≡ (s, message_actions Float rounded scaled shifted exceeds is_one maps s device_id m)
  unfolding dispatch modbus_packet
  dispatch-message saved device_id b m s e f plain =
      let (long, counted, code, rest) = parse_message-inverse b m e in
      let type = msg_type_4 b m e f in
      let n = be (slice 6 7 b) in
      let no_config : is_config_packet b ≡ false =
        plain_size (type_4 b) (msg_type b) (length b) n type counted long plain in
      rw
        (
          dispatch,
          le→ltb_false (length b) 8 (omega arith),
          no_config,
          not_type n 281 (msg_type b) type (ground arith),
          not_type n 280 (msg_type b) type (ground arith),
          not_type n 0x6f64 (msg_type b) type (ground arith),
          noah_or_modbus,
          no_decoder b n (omega arith) type,
          modbus_packet,
          e,
        )
        refl

  -- A packet that is not forwarded, from a device whose topic has a serial number, to a client that is
  -- not stopped, and that unscrambled is a Modbus message with input registers: unless the packet has
  -- 348, 349 or 395 bytes, it goes to the cloud where the policy allows the device, the state stays as
  -- it is, and the registers of the register map that the message has are reported with their values, in
  -- the order of the map, for the inverter that is known behind the device, or for the device where none
  -- is. Nothing is reported where the one that is reported has no register map, where the message has a
  -- value above 1000000 for a register `Ppv`, or where it has no register of the map.
  pub on_message-parse_message :
      (policy : CloudForwardingPolicy) (saved : Bool) (packet : Packet) (s : Bridge) (m : Message)
      → s.stopped ≡ false
      → is_forwarded packet.forwarded_for ≡ false
      → is_text (extract_device_id packet.topic) [] ≡ false
      → parse_message (scramble packet.payload) ≡ parsed m
      → m.function ≡ read_input_register
      → is_config_size (length packet.payload) ≡ false
      → (target : Text) × IsTarget s.gateways (extract_device_id packet.topic) target
        × (on_message Float rounded scaled shifted exceeds is_one maps policy saved packet s ≡ (
          s,
          (if allows_device policy (extract_device_id packet.topic)
                then to_cloud (extract_device_id packet.topic) packet.topic packet.payload ∷ []
                else [])
              ++ report Float rounded scaled shifted exceeds is_one maps target
                  (get_known_registers target)
                  m.register_blocks,
        ))
  unfolding on_message
  on_message-parse_message policy saved packet s m on own usable e f plain =
      let device_id = extract_device_id packet.topic in
      let b = scramble packet.payload in
      let size : is_config_size (length b) ≡ false = rw ((scramble_lem packet.payload 0).0) plain in
      let (target, about, reported) =
        message_actions-report Float rounded scaled shifted exceeds is_one maps s device_id m f in
      let cloud =
        cloud_actions Float rounded scaled shifted exceeds is_one maps policy device_id packet in
      (
        target,
        about,
        if_none (s, []) (none_stop on own usable)
            ∙ ap (with_actions Float rounded scaled shifted exceeds is_one maps cloud)
                (dispatch-message saved device_id b m s e f size)
            ∙ ap (λ (actions : List (Action V)). (s, cloud ++ actions)) reported,
      )
