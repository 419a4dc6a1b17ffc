-- ===== src/Client/Misread.antt =====
-- Modbus messages that `__on_message` takes for configuration packets, by their length field.
use gro_bro.Prelude.{
  ℕ, ◌-◌, ◌≤◌, ◌≡◌, refl, sym, subst, Bool, true, false, ◌&&◌, ◌||◌, List, [], ◌∷◌, ◌++◌, arith,
  leb, ◌==◌, le→ltb_false, if_keeps, length, All, slice, All-append,
}
use gro_bro.Client.State.{
  ptq, remember_gateway, serial_number, Bridge, Packet, Action, to_cloud, settings,
}
use gro_bro.Register.{ℤ, Value}
use gro_bro.Family.{is_text, RegisterMap}
use gro_bro.Client.Telemetry.{Registers}
use gro_bro.Client.Receive.{type_4, msg_type, is_forwarded, dispatch, cloud_actions, on_message}
use gro_bro.Bytes.{Bytes, Text}
use gro_bro.Client.Route.{is_config_size}
use gro_bro.Config.Tlv.{find_config_offset, DeviceConfig}
use gro_bro.Client.Policy.{allows_device, CloudForwardingPolicy}
use gro_bro.Modbus.Message.{parse_message, Message, parsed}
use gro_bro.Client.Settings.{ptq_actions, config_actions, config_packet}
use gro_bro.Client.Proper.{parse_config_type_done}
use gro_bro.Builder.{scramble}
use gro_bro.Client.Topic.{strip_space, extract_device_id, starts_with}
use gro_bro.Modbus.Sound.{parse_message-inverse}
use gro_bro.Config.Response.{device_text}
use gro_bro.Builder.Scramble.{scramble_lem}

-- What is done with a configuration packet.
abbrev pub IsSettings : {V : Type 0} → Action V → Type 0
IsSettings (to_cloud id topic payload) = Unit {0}
IsSettings (settings id config) = Unit {0}
IsSettings _ = true ≡ false

as_config :
    (four type size : ℕ)
    → four ≡ size - 8
    → 38 ≤ size
    → is_config_size size ≡ true
    → (four == 340 || four == 341 || four == 387 || type == 0x0129) ≡ true
as_config four type size counted long sized = ground arith

module _ (Float : Type 0) (rounded : ℤ → Float) (scaled : ℤ → Float → Float)
    (shifted : ℤ → Float → Float → Float) (exceeds is_one : Float → Bool)
    (maps : RegisterMap → Registers Float rounded scaled shifted exceeds is_one) where
  abbrev V : Type 0
  V = Value Float rounded scaled shifted

  config_actions-IsSettings :
      (saved : Bool) (device_id : Text) (type : ℕ) (b : Bytes) (config : DeviceConfig) (s : Bridge)
      → All IsSettings (config_actions V saved device_id type b config s).1
  config_actions-IsSettings saved device_id type b config s =
      let r : Bridge × List (Action V) = (
        remember_gateway saved device_id (serial_number config) s,
        settings device_id config ∷ [],
      ) in
      let serial = strip_space (device_text (slice 38 68 b)) in
      if_keeps (λ (q : Bridge × List (Action V)). All IsSettings q.1)
        (type == 0x0129 && leb 68 (length b)) {x = ptq_actions V saved device_id config serial r}
        {y = r}
        (if_keeps (λ (q : Bridge × List (Action V)). All IsSettings q.1) (starts_with ptq serial)
          {y = r} (tt, (tt, tt)) (tt, tt))
        (tt, tt)

  config_packet-IsSettings :
      (saved : Bool) (device_id : Text) (type : ℕ) (b : Bytes) (s : Bridge)
      → All IsSettings (config_packet V saved device_id type b s).1
  unfolding config_packet
  config_packet-IsSettings saved device_id type b s =
      let (config, e) = parse_config_type_done b (find_config_offset b) in
      rw (config_packet, e) (config_actions-IsSettings saved device_id type b config s)

  -- A packet of 348, 349 or 395 bytes that unscrambled is a Modbus message, whatever its function, is
  -- taken for a configuration packet: nothing is done with its register values.
  pub on_message-IsSettings :
      (policy : CloudForwardingPolicy) (saved : Bool) (packet : Packet) (s : Bridge) (m : Message)
      → parse_message (scramble packet.payload) ≡ parsed m
      → is_config_size (length packet.payload) ≡ true
      → All IsSettings
          (on_message Float rounded scaled shifted exceeds is_one maps policy saved packet s).1
  unfolding on_message dispatch
  on_message-IsSettings policy saved packet s m e sized =
      let device_id = extract_device_id packet.topic in
      let b = scramble packet.payload in
      let (long, counted, code, rest) = parse_message-inverse b m e in
      let taken =
        as_config (type_4 b) (msg_type b) (length b) counted long
          (rw ((scramble_lem packet.payload 0).0) sized) in
      let first =
        cloud_actions Float rounded scaled shifted exceeds is_one maps policy device_id packet in
      let c = config_packet V saved device_id (msg_type b) b s in
      let d = dispatch Float rounded scaled shifted exceeds is_one maps saved device_id b s in
      let same : d ≡ c = rw (dispatch, le→ltb_false (length b) 8 (omega arith), taken) refl in
      if_keeps (λ (q : Bridge × List (Action V)). All IsSettings q.1)
        (s.stopped || is_forwarded packet.forwarded_for || is_text device_id []) {x = (s, [])}
        {y = (d.0, first ++ d.1)} tt
        (All-append IsSettings first d.1
          (if_keeps (All IsSettings) (allows_device policy device_id) (tt, tt) tt)
          (subst (λ (q : Bridge × List (Action V)). All IsSettings q.1) (sym same)
            (config_packet-IsSettings saved device_id (msg_type b) b s)))
