-- ===== src/Client/Run.antt =====
-- Every history of packets from the devices, and what is done with the next one.
use gro_bro.Prelude.{
  ◌≡◌, refl, Bool, true, false, ◌||◌, List, [], ◌∷◌, ◌++◌, if_keeps, if_splits, All, All-append,
}
use gro_bro.Client.Dispatch.{dispatch-IsFine}
use gro_bro.Client.Policy.{allows_device, CloudForwardingPolicy}
use gro_bro.Register.{ℤ, Value}
use gro_bro.Client.State.{
  Bridge, Packet, word, Action, to_cloud, settings, readback, read_answered, write_accepted,
  smart_meter, holding_state, input_state, unreadable, endless,
}
use gro_bro.Family.{is_text, RegisterMap}
use gro_bro.Pending.{new}
use gro_bro.Client.Telemetry.{Registers}
use gro_bro.Client.Proper.{IsGateway, IsLocal}
use gro_bro.Client.Receive.{is_forwarded, dispatch, cloud_actions, on_message}
use gro_bro.Client.Topic.{extract_device_id}
use gro_bro.Builder.{scramble}

-- `Client.__init__`, where no file names a gateway.
abbrev pub fresh : Bridge
fresh = record { stopped = false; gateways = []; dirty = []; pending = λ device_id. new }

-- A packet, with the cloud policy of the moment and whether a file can be written.
abbrev pub Arrival : Type 0
Arrival = CloudForwardingPolicy × Bool × Packet

-- An action that a packet allows: to the cloud goes only the packet itself, for its own device, where
-- the policy allows this device; a readback of register 7, the password, is empty and retained; and
-- no loop is endless.
abbrev pub IsProper : {V : Type 0} → CloudForwardingPolicy → Packet → Action V → Type 0
IsProper policy packet (to_cloud id topic payload) =
    (allows_device policy id ≡ true)
    × (id ≡ extract_device_id packet.topic)
    × (topic ≡ packet.topic)
    × (payload ≡ packet.payload)
IsProper policy packet (readback id register_no value retain) =
    register_no ≡ 7 → (value ≡ word []) × (retain ≡ true)
IsProper policy packet endless = true ≡ false
IsProper policy packet _ = Unit {0}

local-IsProper :
    {V : Type 0} (policy : CloudForwardingPolicy) (packet : Packet) (a : Action V)
    → IsLocal V a
    → IsProper policy packet a
local-IsProper policy packet (to_cloud id topic payload) h = absurd cc
local-IsProper policy packet (settings id config) h = tt
local-IsProper policy packet (readback id r v retain) h = h
local-IsProper policy packet (read_answered id r) h = tt
local-IsProper policy packet (write_accepted id r) h = tt
local-IsProper policy packet (smart_meter id d) h = tt
local-IsProper policy packet (holding_state id vs) h = tt
local-IsProper policy packet (input_state id vs) h = tt
local-IsProper policy packet unreadable h = tt
local-IsProper policy packet endless h = absurd cc

locals-IsProper :
    {V : Type 0} (policy : CloudForwardingPolicy) (packet : Packet) (bs : List (Action V))
    → All (IsLocal V) bs
    → All (IsProper policy packet) bs
locals-IsProper policy packet [] h = tt
locals-IsProper policy packet (a ∷ bs) h =
    (local-IsProper policy packet a h.0, locals-IsProper policy packet bs h.1)

module _ (Float : Type 0) (rounded : ℤ → Float) (scaled : ℤ → Float → Float)
    (shifted : ℤ → Float → Float → Float) (exceeds is_one : Float → Bool)
    (maps : RegisterMap → Registers Float rounded scaled shifted exceeds is_one) where
  abbrev V : Type 0
  V = Value Float rounded scaled shifted

  unfoldable pub receive_all : List Arrival → Bridge → Bridge
  receive_all [] s = s
  receive_all ((policy, saved, packet) ∷ es) s =
      receive_all es
        (on_message Float rounded scaled shifted exceeds is_one maps policy saved packet s).0

  cloud_actions-IsProper :
      (policy : CloudForwardingPolicy) (packet : Packet)
      → All (IsProper policy packet) (
          cloud_actions Float rounded scaled shifted exceeds is_one maps policy
            (extract_device_id packet.topic)
            packet)
  cloud_actions-IsProper policy packet =
      if_splits (All (IsProper policy packet))
        (allows_device policy (extract_device_id packet.topic)) (λ e. ((e, refl, refl, refl), tt))
        (λ e. tt)

  on_message_from :
      (policy : CloudForwardingPolicy) (saved : Bool) (packet : Packet) (s : Bridge)
      → All IsGateway s.gateways
      → let r = on_message Float rounded scaled shifted exceeds is_one maps policy saved packet s in
        All IsGateway (r.0).gateways × All (IsProper policy packet) r.1
  unfolding on_message
  on_message_from policy saved packet s h =
      let device_id = extract_device_id packet.topic in
      let first =
        cloud_actions Float rounded scaled shifted exceeds is_one maps policy device_id packet in
      let d =
        dispatch Float rounded scaled shifted exceeds is_one maps saved device_id
          (scramble packet.payload) s in
      let fine =
        dispatch-IsFine Float rounded scaled shifted exceeds is_one maps saved device_id
          (scramble packet.payload) s h in
      if_keeps
        (λ (r : Bridge × List (Action V)).
          All IsGateway (r.0).gateways × All (IsProper policy packet) r.1)
        (s.stopped || is_forwarded packet.forwarded_for || is_text device_id []) {x = (s, [])}
        {y = (d.0, first ++ d.1)} (h, tt)
        (
          fine.0,
          All-append (IsProper policy packet) first d.1 (cloud_actions-IsProper policy packet)
              (locals-IsProper policy packet d.1 fine.1),
        )

  receive_all_from :
      (es : List Arrival) (s : Bridge)
      → All IsGateway s.gateways
      → All IsGateway (receive_all es s).gateways
  unfolding receive_all
  receive_all_from [] s h = h
  receive_all_from ((policy, saved, packet) ∷ es) s h =
      receive_all_from es _ (on_message_from policy saved packet s h).0

  -- After any sequence of packets from any devices, whatever the cloud policies, the files that cannot
  -- be written and the register maps, the client stores for gateways alone, and only serial numbers of
  -- inverters that begin with PTQ.
  pub receive_all-IsGateway : (es : List Arrival) → All IsGateway (receive_all es fresh).gateways
  receive_all-IsGateway es = receive_all_from es fresh tt

  -- After any sequence of packets, the actions on one more packet are proper: to the cloud goes the
  -- packet alone, unchanged, for the device of its topic, where the policy allows this device; a
  -- readback of register 7, the password, is an empty retained value; and no loop of a parser is left
  -- without an end.
  pub on_message-IsProper :
      (es : List Arrival) (policy : CloudForwardingPolicy) (saved : Bool) (packet : Packet)
      → All
          (IsProper policy packet)
          (on_message Float rounded scaled shifted exceeds is_one maps policy saved packet
            (receive_all es fresh)).1
  on_message-IsProper es policy saved packet =
      (on_message_from policy saved packet (receive_all es fresh) (receive_all-IsGateway es)).1
