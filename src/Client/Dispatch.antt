-- ===== src/Client/Dispatch.antt =====
-- What `__on_message` may do, and what it keeps, for every packet and every sequence of packets.
use gro_bro.Prelude.{
  ◌≡◌, refl, ◌≢◌, ◌⊎◌, inl, inr, Bool, ◌&&◌, Option, none, some, List, [], ◌∷◌, ltb, ◌==◌,
  if◌then◌else◌, if_keeps, length, All,
}
use gro_bro.Bytes.{Bytes, Text}
use gro_bro.Register.{ℤ, Value}
use gro_bro.Modbus.Message.{parse_message, Message, Parse, parsed, refused, stuck}
use gro_bro.Protocol.Decoders.{
  parse_noah_6f64, parse_noah_message, Decoded, noah_0103, noah_fe19, noah_6f64,
}
use gro_bro.Family.{uses_noah_protocol, RegisterMap}
use gro_bro.Client.Telemetry.{
  holding_values, input_values, unless_empty, function_actions, or_own, known_registers,
  device_actions, modbus_packet, known_config, Registers,
}
use gro_bro.Config.Tlv.{done}
use gro_bro.Modbus.Device.{
  ModbusFunction, read_holding_register, read_input_register, read_single_register,
  preset_single_register, preset_multiple_register, vendor_100,
}
use gro_bro.Protocol.Dispatch.{parse_noah_message_cases}
use gro_bro.Client.State.{
  ptq_of, serial_number, is_given, Bridge, Action, settings, holding_state, input_state,
}
use gro_bro.Modbus.Block.{Block}
use gro_bro.Client.Proper.{
  IsGateway, IsLocal, IsFine, read_response-IsFine, write_response-IsFine, config_packet-IsFine,
}
use gro_bro.Client.Receive.{
  msg_type, is_config_packet, smart_meter_actions, noah_packet, noah_or_modbus, dispatch,
}
use gro_bro.Modbus.Accounts.{parse_message-ne-stuck}
use gro_bro.Client.Settings.{read_response, write_response, config_packet}

parse_noah_message_done :
    (bytes : Bytes) → (d : Option Decoded) × (parse_noah_message bytes ≡ done d)
parse_noah_message_done bytes = elim (parse_noah_message_cases bytes) [
  | inl (short, e) ↦ (none, e)
  | inr (long, inl (unknown_type, e)) ↦ (none, e)
  | inr (long, inr (known_type, d, e, typed)) ↦ (some d, e)
]

parse_cases : (p : Parse Message) → p ≢ stuck → (p ≡ refused) ⊎ ((m : Message) × (p ≡ parsed m))
parse_cases (parsed m) ne = inr (m, refl)
parse_cases refused ne = inl refl
parse_cases stuck ne = absurd (ne refl)

module _ (Float : Type 0) (rounded : ℤ → Float) (scaled : ℤ → Float → Float)
    (shifted : ℤ → Float → Float → Float) (exceeds is_one : Float → Bool)
    (maps : RegisterMap → Registers Float rounded scaled shifted exceeds is_one) where
  abbrev V : Type 0
  V = Value Float rounded scaled shifted

  unless_empty-IsLocal :
      (action : List (Text × V) → Action V) (o : Option (List (Text × V)))
      → ((vs : List (Text × V)) → IsLocal V (action vs))
      → All (IsLocal V) (unless_empty Float rounded scaled shifted exceeds is_one action o)
  unless_empty-IsLocal action none h = tt
  unless_empty-IsLocal action (some []) h = tt
  unless_empty-IsLocal action (some (v ∷ vs)) h = (h (v ∷ vs), tt)

  function_actions-IsLocal :
      (device_id : Text) (known : Registers Float rounded scaled shifted exceeds is_one)
      (f : ModbusFunction) (blocks : List Block)
      → All
          (IsLocal V)
          (function_actions Float rounded scaled shifted exceeds is_one device_id known f blocks)
  function_actions-IsLocal device_id known read_input_register blocks =
      unless_empty-IsLocal (input_state device_id)
        (input_values Float rounded scaled shifted exceeds is_one blocks known.input_registers)
        (λ vs. tt)
  function_actions-IsLocal device_id known read_single_register blocks =
      unless_empty-IsLocal (holding_state device_id)
        (some (
          holding_values Float rounded scaled shifted exceeds is_one blocks
            known.holding_registers))
        (λ vs. tt)
  function_actions-IsLocal device_id known read_holding_register blocks = tt
  function_actions-IsLocal device_id known preset_single_register blocks = tt
  function_actions-IsLocal device_id known preset_multiple_register blocks = tt
  function_actions-IsLocal device_id known vendor_100 blocks = tt

  device_actions-IsLocal :
      (device_id : Text) (known : Option (Registers Float rounded scaled shifted exceeds is_one))
      (m : Message)
      → All
          (IsLocal V)
          (device_actions Float rounded scaled shifted exceeds is_one maps device_id known m)
  device_actions-IsLocal device_id none m = tt
  device_actions-IsLocal device_id (some known) m =
      function_actions-IsLocal device_id known m.function m.register_blocks

  modbus_packet-IsFine :
      (device_id : Text) (bytes : Bytes) (s : Bridge)
      → All IsGateway s.gateways
      → IsFine V (modbus_packet Float rounded scaled shifted exceeds is_one maps device_id bytes s)
  unfolding modbus_packet
  modbus_packet-IsFine device_id bytes s h =
      let own =
        or_own Float rounded scaled shifted exceeds is_one device_id
          (ptq_of device_id s.gateways) in
      elim (parse_cases (parse_message bytes) (parse_message-ne-stuck bytes)) [
        | inl e ↦ rw (modbus_packet, e) (h, tt)
        | inr (m, e) ↦
            rw (modbus_packet, e)
              (
                h,
                device_actions-IsLocal own
                    (known_registers Float rounded scaled shifted exceeds is_one maps own) m,
              )
      ]

  noah_packet-IsFine :
      (device_id : Text) (bytes : Bytes) (o : Option Decoded) (s : Bridge)
      → All IsGateway s.gateways
      → IsFine V (noah_packet Float rounded scaled shifted exceeds is_one maps device_id bytes o s)
  noah_packet-IsFine device_id bytes none s h = modbus_packet-IsFine device_id bytes s h
  noah_packet-IsFine device_id bytes (some (noah_fe19 id subtype config offset)) s h =
      if_keeps (IsFine V) (uses_noah_protocol device_id && is_given (serial_number config))
        {x = (s, settings device_id config ∷ [])}
        {y = modbus_packet Float rounded scaled shifted exceeds is_one maps device_id bytes s}
        (h, (tt, tt)) (modbus_packet-IsFine device_id bytes s h)
  noah_packet-IsFine device_id bytes (some (noah_0103 id regs n)) s h = (h, tt)
  noah_packet-IsFine device_id bytes (some _) s h = modbus_packet-IsFine device_id bytes s h

  smart_meter_actions-IsLocal :
      (d : Decoded)
      → All (IsLocal V) (smart_meter_actions Float rounded scaled shifted exceeds is_one maps d)
  smart_meter_actions-IsLocal (noah_6f64 id meter time n json) = (tt, tt)
  smart_meter_actions-IsLocal _ = (tt, tt)

  noah_or_modbus-IsFine :
      (device_id : Text) (bytes : Bytes) (s : Bridge)
      → All IsGateway s.gateways
      → IsFine V (noah_or_modbus Float rounded scaled shifted exceeds is_one maps device_id bytes s)
  noah_or_modbus-IsFine device_id bytes s h =
      let (d, e) = parse_noah_message_done bytes in
      rw (noah_or_modbus, e) (noah_packet-IsFine device_id bytes d s h)

  pub dispatch-IsFine :
      (saved : Bool) (device_id : Text) (bytes : Bytes) (s : Bridge)
      → All IsGateway s.gateways
      → IsFine V (dispatch Float rounded scaled shifted exceeds is_one maps saved device_id bytes s)
  unfolding dispatch
  dispatch-IsFine saved device_id bytes s h =
      let known = known_config Float rounded scaled shifted exceeds is_one maps in
      let rest =
        noah_or_modbus Float rounded scaled shifted exceeds is_one maps device_id bytes s in
      let meter : Bridge × List (Action V) = (
        s,
        smart_meter_actions Float rounded scaled shifted exceeds is_one maps
            (parse_noah_6f64 bytes),
      ) in
      let type = msg_type bytes in
      let at_meter = if type == 0x6f64 then meter else rest in
      let at_ack = if type == 280 then write_response V known bytes s else at_meter in
      let at_read = if type == 281 then read_response V known bytes s else at_ack in
      let at_config =
        if is_config_packet bytes then config_packet V saved device_id type bytes s else at_read in
      if_keeps (IsFine V) (ltb (length bytes) 8) {x = (s, [])} {y = at_config} (h, tt)
        (if_keeps (IsFine V) (is_config_packet bytes)
          {x = config_packet V saved device_id type bytes s} {y = at_read}
          (config_packet-IsFine V saved device_id type bytes s h)
          (if_keeps (IsFine V) (type == 281) {x = read_response V known bytes s} {y = at_ack}
            (read_response-IsFine V known bytes s h)
            (if_keeps (IsFine V) (type == 280) {x = write_response V known bytes s} {y = at_meter}
              (write_response-IsFine V known bytes s h)
              (if_keeps (IsFine V) (type == 0x6f64) {x = meter} {y = rest}
                (h, smart_meter_actions-IsLocal (parse_noah_6f64 bytes))
                (noah_or_modbus-IsFine device_id bytes s h)))))
