-- ===== src/Client/Proper.antt =====
-- What the branches of `__on_message` may do, and what they keep, whatever the packet.
use gro_bro.Prelude.{
  ℕ, ◌≡◌, refl, ◌⊎◌, inl, inr, Bool, true, false, not, ◌&&◌, ◌||◌, Option, none, some, List, [],
  ◌∷◌, arith, ltb, leb, ◌==◌, if_keeps, if_splits, length, All, slice, All-append,
}
use gro_bro.Bytes.{Bytes, Text}
use gro_bro.Client.State.{
  ptq, ptq_of, set_ptq, is_endpoint_of, remember_gateway, serial_number, Bridge, ConfigValue, word,
  Action, to_cloud, settings, readback, endless,
}
use gro_bro.Config.Tlv.{parse_config_type, find_config_offset, Outcome, done, stuck, DeviceConfig}
use gro_bro.Client.Settings.{
  find_config_register, entry_config_value, str_of, metadata_field, is_published, neo_wifi,
  metadata_actions, readback_of, entry_actions, entries_actions, read_response, write_response,
  ptq_actions, config_packet, ConfigRegister,
}
use gro_bro.Config.Response.{device_text, parse_config_ack, Result, ok, truncated, Entry, ConfigAck}
use gro_bro.Family.{is_text, has_text, is_gateway_device}
use gro_bro.Config.Total.{parse_config_type-ne-stuck, parse_config_message_cases}
use gro_bro.Client.Topic.{strip_space, starts_with}

-- A gateway, and the inverter behind it.
abbrev pub IsGateway : Text × Text → Type 0
IsGateway (gateway, endpoint) =
    (is_gateway_device gateway ≡ true) × (starts_with ptq endpoint ≡ true)

-- An action that shows no password, sends nothing to the cloud, and is no loop that does not end.
abbrev pub IsLocal : (V : Type 0) → Action V → Type 0
IsLocal V (to_cloud id topic payload) = true ≡ false
IsLocal V (readback id register_no value retain) =
    register_no ≡ 7 → (value ≡ word []) × (retain ≡ true)
IsLocal V endless = true ≡ false
IsLocal V _ = Unit {0}

-- What a branch leaves behind and does.
abbrev pub IsFine : (V : Type 0) → Bridge × List (Action V) → Type 0
IsFine V r = All IsGateway (r.0).gateways × All (IsLocal V) r.1

set_ptq-IsGateway :
    (gateway endpoint : Text) (gs : List (Text × Text))
    → IsGateway (gateway, endpoint)
    → All IsGateway gs
    → All IsGateway (set_ptq gateway endpoint gs)
set_ptq-IsGateway gateway endpoint [] h hs = (h, tt)
set_ptq-IsGateway gateway endpoint ((g, e) ∷ gs) h hs =
    if_keeps (All IsGateway) (is_text g gateway) (h, hs.1)
      (hs.0, set_ptq-IsGateway gateway endpoint gs h hs.1)

not_both : (a b : Bool) → (not a || not b) ≡ false → (a ≡ true) × (b ≡ true)
not_both true true h = (refl, refl)
not_both true false h = absurd cc
not_both false b h = absurd cc

pub remember_gateway-IsGateway :
    (saved : Bool) (gateway : Text) (endpoint : Option Text) (s : Bridge)
    → All IsGateway s.gateways
    → All IsGateway (remember_gateway saved gateway endpoint s).gateways
unfolding remember_gateway
remember_gateway-IsGateway saved gateway none s h = h
remember_gateway-IsGateway saved gateway (some endpoint) s h =
    if_splits (λ (t : Bridge). All IsGateway t.gateways)
      (not (is_gateway_device gateway) || not (starts_with ptq endpoint)) (λ e. h)
      (λ e.
        if_keeps (λ (t : Bridge). All IsGateway t.gateways)
          (is_endpoint_of endpoint (ptq_of gateway s.gateways) && not (has_text gateway s.dirty)) h
          (set_ptq-IsGateway gateway endpoint s.gateways
            (not_both (is_gateway_device gateway) (starts_with ptq endpoint) e) h))

Outcome-cases : {A : Type 0} (o : Outcome A) → (o ≡ stuck) ⊎ ((a : A) × (o ≡ done a))
Outcome-cases (done a) = inr (a, refl)
Outcome-cases stuck = inl refl

pub parse_config_type_done :
    (bytes : Bytes) (offset : ℕ)
    → (config : DeviceConfig) × (parse_config_type bytes offset ≡ done config)
parse_config_type_done bytes offset = elim (Outcome-cases (parse_config_type bytes offset)) [
  | inl e ↦ absurd (parse_config_type-ne-stuck bytes offset e)
  | inr found ↦ found
]

parse_config_ack_cases :
    (bytes : Bytes)
    → (parse_config_ack bytes ≡ truncated) ⊎ ((a : ConfigAck) × (parse_config_ack bytes ≡ ok a))
unfolding parse_config_ack
parse_config_ack_cases bytes =
    if_keeps (λ (r : Result ConfigAck). (r ≡ truncated) ⊎ ((a : ConfigAck) × (r ≡ ok a)))
      (ltb (length bytes) 40) (inl refl) (inr (_, refl))

module _ (V : Type 0) where
  neo_wifi-IsLocal : (value : Text) (neo : Option Text) → All (IsLocal V) (neo_wifi V value neo)
  neo_wifi-IsLocal value none = tt
  neo_wifi-IsLocal value (some []) = tt
  neo_wifi-IsLocal value (some (c ∷ neo)) = (tt, tt)

  metadata_actions-IsLocal :
      (s : Bridge) (device_id value : Text) (field : Option ℕ)
      → All (IsLocal V) (metadata_actions V s device_id value field)
  metadata_actions-IsLocal s device_id value none = tt
  metadata_actions-IsLocal s device_id value (some field) = (
    tt,
    if_keeps (All (IsLocal V)) (field == 76) (neo_wifi-IsLocal value (ptq_of device_id s.gateways))
        tt,
  )

  readback_of-IsLocal :
      (device_id : Text) (k : ℕ) (value : ConfigValue) (retain : Bool)
      → IsLocal V (readback_of V device_id k value retain)
  readback_of-IsLocal device_id k value retain =
      if_splits (IsLocal V) (k == 7) (λ e same. (refl, refl)) (λ ne same. absurd (ground arith))

  entries_actions-IsLocal :
      (s : Bridge) (known : List ConfigRegister) (device_id : Text) (es : List Entry)
      → All (IsLocal V) (entries_actions V s known device_id es)
  unfolding entries_actions
  entries_actions-IsLocal s known device_id [] = tt
  entries_actions-IsLocal s known device_id (e ∷ es) =
      let register = find_config_register e.register_no known in
      let value = entry_config_value register e.value in
      All-append (IsLocal V) (entry_actions V s known device_id e)
        (entries_actions V s known device_id es)
        (All-append (IsLocal V)
          (metadata_actions V s device_id (str_of value) (metadata_field register)) _
          (metadata_actions-IsLocal s device_id (str_of value) (metadata_field register))
          (readback_of-IsLocal device_id e.register_no value (is_published register), (tt, tt)))
        (entries_actions-IsLocal s known device_id es)

  pub read_response-IsFine :
      (known : Text → List ConfigRegister) (bytes : Bytes) (s : Bridge)
      → All IsGateway s.gateways
      → IsFine V (read_response V known bytes s)
  unfolding read_response
  read_response-IsFine known bytes s h = elim (parse_config_message_cases bytes) [
    | inl (short, e) ↦ rw (read_response, e) (h, (tt, tt))
    | inr (long, m, e) ↦
        rw (read_response, e)
          (h, entries_actions-IsLocal s (known m.device_id) m.device_id m.entries)
  ]

  pub write_response-IsFine :
      (known : Text → List ConfigRegister) (bytes : Bytes) (s : Bridge)
      → All IsGateway s.gateways
      → IsFine V (write_response V known bytes s)
  unfolding write_response
  write_response-IsFine known bytes s h = elim (parse_config_ack_cases bytes) [
    | inl e ↦ rw (write_response, e) (h, (tt, tt))
    | inr (a, e) ↦ rw (write_response, e) (h, (tt, tt))
  ]

  ptq_actions-IsFine :
      (saved : Bool) (device_id : Text) (config : DeviceConfig) (serial : Text)
      (r : Bridge × List (Action V))
      → IsFine V r
      → IsFine V (ptq_actions V saved device_id config serial r)
  ptq_actions-IsFine saved device_id config serial (s, actions) h =
      if_keeps (IsFine V) (starts_with ptq serial)
        (
          remember_gateway-IsGateway saved device_id (some serial) s h.0,
          All-append (IsLocal V) actions _ h.1 (tt, tt),
        )
        h

  pub config_packet-IsFine :
      (saved : Bool) (device_id : Text) (type : ℕ) (bytes : Bytes) (s : Bridge)
      → All IsGateway s.gateways
      → IsFine V (config_packet V saved device_id type bytes s)
  unfolding config_packet
  config_packet-IsFine saved device_id type bytes s h =
      let offset = find_config_offset bytes in
      elim (Outcome-cases (parse_config_type bytes offset)) [
        | inl e ↦ absurd (parse_config_type-ne-stuck bytes offset e)
        | inr (config, e) ↦
            let r : Bridge × List (Action V) = (
              remember_gateway saved device_id (serial_number config) s,
              settings device_id config ∷ [],
            ) in
            let serial = strip_space (device_text (slice 38 68 bytes)) in
            let first : IsFine V r =
              (remember_gateway-IsGateway saved device_id (serial_number config) s h, (tt, tt)) in
            rw (config_packet, e)
              (if_keeps (IsFine V) (type == 0x0129 && leb 68 (length bytes))
                {x = ptq_actions V saved device_id config serial r} {y = r}
                (ptq_actions-IsFine saved device_id config serial r first) first)
      ]
