-- ===== src/Client/Answers.antt =====
-- The answers to config reads, from a response on the wire to the sequence of reads.
use gro_bro.Prelude.{
  if_none, ℕ, ◌≡◌, refl, ap, ◌∙◌, Bool, true, false, Option, none, some, List, [], ◌∷◌, ◌++◌, map,
  arith, ◌==◌, le→ltb_false, ==_iff, if_keeps, length, All, length-append,
}
use gro_bro.Client.State.{
  ptq_of, Bridge, Packet, word, Action, to_cloud, settings, readback, read_answered, write_accepted,
  smart_meter, holding_state, input_state, unreadable, endless,
}
use gro_bro.Register.{ℤ, Value}
use gro_bro.Bytes.{Bytes, Text, IsByte}
use gro_bro.Client.Settings.{
  find_config_register, entry_config_value, str_of, metadata_field, is_published, neo_wifi,
  metadata_actions, readback_of, entry_actions, entries_actions, read_response, ConfigRegister,
}
use gro_bro.Config.Response.{Entry}
use gro_bro.Family.{is_text, RegisterMap}
use gro_bro.Client.Telemetry.{known_config, Registers}
use gro_bro.Config.Entries.{entry_of, parse_config_message-tlvs}
use gro_bro.Client.Receive.{
  msg_type, is_config_packet, is_forwarded, dispatch, cloud_actions, on_message,
}
use gro_bro.Client.Policy.{allows_device, CloudForwardingPolicy}
use gro_bro.Client.Topic.{extract_device_id}
use gro_bro.Config.RoundTrip.{tlvs_bytes, IsTlv}
use gro_bro.Builder.{scramble}
use gro_bro.Builder.Scramble.{scramble-scramble}
use gro_bro.Client.Route.{none_stop}

-- The registers that are reported as answered.
abbrev pub answered_registers : {V : Type 0} → List (Action V) → List ℕ
answered_registers [] = []
answered_registers (read_answered id r ∷ as') = r ∷ answered_registers as'
answered_registers (_ ∷ as') = answered_registers as'

answered_registers-append :
    {V : Type 0} (xs ys : List (Action V))
    → answered_registers (xs ++ ys) ≡ answered_registers xs ++ answered_registers ys
answered_registers-append [] ys = refl
answered_registers-append (to_cloud id topic payload ∷ xs) ys = answered_registers-append xs ys
answered_registers-append (settings id config ∷ xs) ys = answered_registers-append xs ys
answered_registers-append (readback id r v retain ∷ xs) ys = answered_registers-append xs ys
answered_registers-append (read_answered id r ∷ xs) ys =
    ap (λ (l : List ℕ). r ∷ l) (answered_registers-append xs ys)
answered_registers-append (write_accepted id r ∷ xs) ys = answered_registers-append xs ys
answered_registers-append (smart_meter id d ∷ xs) ys = answered_registers-append xs ys
answered_registers-append (holding_state id vs ∷ xs) ys = answered_registers-append xs ys
answered_registers-append (input_state id vs ∷ xs) ys = answered_registers-append xs ys
answered_registers-append (unreadable ∷ xs) ys = answered_registers-append xs ys
answered_registers-append (endless ∷ xs) ys = answered_registers-append xs ys

neo_wifi_unanswered :
    (V : Type 0) (value : Text) (neo : Option Text) → answered_registers (neo_wifi V value neo) ≡ []
neo_wifi_unanswered V value none = refl
neo_wifi_unanswered V value (some []) = refl
neo_wifi_unanswered V value (some (c ∷ neo)) = refl

metadata_unanswered :
    (V : Type 0) (s : Bridge) (id value : Text) (field : Option ℕ)
    → answered_registers (metadata_actions V s id value field) ≡ []
metadata_unanswered V s id value none = refl
metadata_unanswered V s id value (some field) =
    if_keeps (λ (l : List (Action V)). answered_registers l ≡ []) (field == 76)
      (neo_wifi_unanswered V value (ptq_of id s.gateways)) refl

entry_answered :
    (V : Type 0) (s : Bridge) (known : List ConfigRegister) (id : Text) (e : Entry)
    → answered_registers (entry_actions V s known id e) ≡ e.register_no ∷ []
entry_answered V s known id e =
    let register = find_config_register e.register_no known in
    let value = entry_config_value register e.value in
    let meta = metadata_actions V s id (str_of value) (metadata_field register) in
    let answer : List (Action V) = read_answered id e.register_no ∷ [] in
    answered_registers-append meta
      (readback_of V id e.register_no value (is_published register) ∷ answer)
    ∙ rw (metadata_unanswered V s id (str_of value) (metadata_field register)) (
        if_keeps (λ (a : Action V). answered_registers (a ∷ answer) ≡ e.register_no ∷ [])
          (e.register_no == 7) {x = readback id e.register_no (word []) true}
          {y = readback id e.register_no value (is_published register)} refl refl)

abbrev registers_of : List Entry → List ℕ
registers_of [] = []
registers_of (e ∷ es) = e.register_no ∷ registers_of es

entries_answered :
    (V : Type 0) (s : Bridge) (known : List ConfigRegister) (id : Text) (es : List Entry)
    → answered_registers (entries_actions V s known id es) ≡ registers_of es
unfolding entries_actions
entries_answered V s known id [] = refl
entries_answered V s known id (e ∷ es) =
    answered_registers-append (entry_actions V s known id e) (entries_actions V s known id es)
    ∙ rw (entry_answered V s known id e, entries_answered V s known id es) refl

registers_of-entry_of : (ps : List (ℕ × Bytes)) → registers_of (map entry_of ps) ≡ map (λ p. p.0) ps
registers_of-entry_of [] = refl
registers_of-entry_of (p ∷ ps) = rw (registers_of-entry_of ps) refl

module _ (Float : Type 0) (rounded : ℤ → Float) (scaled : ℤ → Float → Float)
    (shifted : ℤ → Float → Float → Float) (exceeds is_one : Float → Bool)
    (maps : RegisterMap → Registers Float rounded scaled shifted exceeds is_one) where
  abbrev V : Type 0
  V = Value Float rounded scaled shifted

  cloud_unanswered :
      (policy : CloudForwardingPolicy) (device_id : Text) (packet : Packet)
      → answered_registers
          (cloud_actions Float rounded scaled shifted exceeds is_one maps policy device_id packet)
        ≡ []
  cloud_unanswered policy device_id packet =
      if_keeps (λ (l : List (Action V)). answered_registers l ≡ []) (allows_device policy device_id)
        {x = to_cloud device_id packet.topic packet.payload ∷ []} {y = []} refl refl

  -- A scrambled config response, type 281, whose header of 41 bytes is followed by one TLV or more,
  -- none of them empty, and by a two-byte trailer, and whose length field is none of those of a
  -- configuration packet: a client that is not stopped, and to which it is not forwarded, reports each
  -- of its registers as answered, in their order and nothing else, whatever the cloud policy and the
  -- register maps.
  pub on_message-tlvs :
      (policy : CloudForwardingPolicy) (saved : Bool) (packet : Packet) (s : Bridge)
      (header : Bytes) (p : ℕ × Bytes) (ps : List (ℕ × Bytes)) (trailer : Bytes)
      → s.stopped ≡ false
      → is_forwarded packet.forwarded_for ≡ false
      → is_text (extract_device_id packet.topic) [] ≡ false
      → length header ≡ 41
      → All (IsTlv 65535) (p ∷ ps)
      → length trailer ≡ 2
      → let bytes = header ++ (tlvs_bytes (p ∷ ps) ++ trailer) in
        All IsByte bytes
        → packet.payload ≡ scramble bytes
        → msg_type bytes ≡ 281
        → is_config_packet bytes ≡ false
        → answered_registers
            (on_message Float rounded scaled shifted exceeds is_one maps policy saved packet s).1
          ≡ map (λ p. p.0) (p ∷ ps)
  unfolding on_message dispatch read_response
  on_message-tlvs policy saved packet s header p ps trailer on own usable size tlvs two bytes_in
        sent type plain =
      let bytes = header ++ (tlvs_bytes (p ∷ ps) ++ trailer) in
      let device_id = extract_device_id packet.topic in
      let (m, read, entries, k, v) = parse_config_message-tlvs header p ps trailer size tlvs two in
      let known = known_config Float rounded scaled shifted exceeds is_one maps in
      let first =
        cloud_actions Float rounded scaled shifted exceeds is_one maps policy device_id packet in
      let seen : scramble packet.payload ≡ bytes = rw sent (scramble-scramble bytes bytes_in) in
      let at_dispatch = dispatch Float rounded scaled shifted exceeds is_one maps saved device_id in
      let d : (at_dispatch bytes s).1
          ≡ entries_actions V s (known m.device_id) m.device_id m.entries =
        rw
          (
            dispatch,
            le→ltb_false (length bytes) 8
                (omega (arith, size, length-append header (tlvs_bytes (p ∷ ps) ++ trailer))),
            plain,
            (==_iff (msg_type bytes) 281).1 type,
            read_response,
            read,
          )
          refl in
      let here : (at_dispatch (scramble packet.payload) s).1 ≡ (at_dispatch bytes s).1 =
        ap (λ (b : Bytes). (at_dispatch b s).1) seen in
      ap (λ (r : Bridge × List (Action V)). answered_registers r.1)
        (if_none (s, []) (none_stop on own usable))
      ∙ answered_registers-append first (at_dispatch (scramble packet.payload) s).1
      ∙ rw (cloud_unanswered policy device_id packet) (ap answered_registers (here ∙ d))
      ∙ entries_answered V s (known m.device_id) m.device_id m.entries
      ∙ ap registers_of entries
      ∙ registers_of-entry_of (p ∷ ps)
