-- ===== src/Publish/States.antt =====
-- When a state is published: `_should_serialize_state`, `_should_publish_state` and
-- `_clear_state_publish_cache` of grobro/ha/performance.py, with the end of `publish_input` and
-- `publish_smart_meter` of grobro/ha/client.py. Python's `==` on payloads and `json.dumps` are
-- parameters; so is whether Paho takes a message.
use gro_bro.Prelude.{Bool, true, false, not, Option, none, some, List, [], ◌∷◌, if◌then◌else◌}
use gro_bro.Bytes.{Text}
use gro_bro.Dicts.{TextDict, get_item, set_item}
use gro_bro.Family.{is_text}

module _ {ℓ} (P : Type ℓ) (same : P → P → Bool) (dumps : P → Text) where
  -- The caches of the client, and what Home Assistant has been sent since it started: the last state of
  -- each device, and of each smart meter.
  pub record States : Type ℓ where
    pub last_state_payload : TextDict P
    pub state_publish_cache : TextDict Text
    pub smart_meter_state_cache : TextDict Text
    pub shown : TextDict Text
    pub shown_meter : TextDict Text

  abbrev pub is_same : P → Option P → Bool
  is_same payload none = false
  is_same payload (some cached) = same cached payload

  abbrev pub is_same_text : Text → Option Text → Bool
  is_same_text t none = false
  is_same_text t (some cached) = is_text cached t

  -- What the call answers, and the cache behind it.
  abbrev pub should_serialize_state : Text → P → Bool → TextDict P → Bool × TextDict P
  should_serialize_state device_id payload commit cache =
      if is_same payload (get_item device_id cache)
      then (false, cache)
      else (true, if commit then set_item device_id payload cache else cache)

  abbrev pub should_publish_state : Text → Text → Bool → TextDict Text → Bool × TextDict Text
  should_publish_state device_id payload_json commit cache =
      if is_same_text payload_json (get_item device_id cache)
      then (false, cache)
      else (true, if commit then set_item device_id payload_json cache else cache)

  -- A message that Paho took: both caches are committed.
  abbrev pub committed : Text → P → States → States
  committed device_id payload s = record {
    last_state_payload = (should_serialize_state device_id payload true s.last_state_payload).1;
    state_publish_cache =
        (should_publish_state device_id (dumps payload) true s.state_publish_cache).1;
    smart_meter_state_cache = s.smart_meter_state_cache;
    shown = set_item device_id (dumps payload) s.shown;
    shown_meter = s.shown_meter;
  }

  -- The end of `publish_input`, behind the prepared payload, but for the request of a NEO's power.
  unfoldable pub publish_state : Text → P → Bool → States → States
  publish_state device_id payload accepted s =
      if not (should_serialize_state device_id payload false s.last_state_payload).0
      then s
      else if not (should_publish_state device_id (dumps payload) false s.state_publish_cache).0
      then s
      else if accepted
      then committed device_id payload s
      else s

  abbrev pub committed_meter : Text → Text → States → States
  committed_meter device_id payload s = record {
    last_state_payload = s.last_state_payload;
    state_publish_cache = s.state_publish_cache;
    smart_meter_state_cache = set_item device_id payload s.smart_meter_state_cache;
    shown = s.shown;
    shown_meter = set_item device_id payload s.shown_meter;
  }

  unfoldable pub publish_smart_meter : Text → Text → Bool → States → States
  publish_smart_meter device_id payload accepted s =
      if is_same_text payload (get_item device_id s.smart_meter_state_cache)
      then s
      else if accepted
      then committed_meter device_id payload s
      else s

  -- What `clear_reconnect_caches` does to these caches, when Home Assistant or the connection starts
  -- again; a state is not retained, so Home Assistant has none then.
  abbrev pub no_states : States
  no_states = record {
    last_state_payload = [];
    state_publish_cache = [];
    smart_meter_state_cache = [];
    shown = [];
    shown_meter = [];
  }

  abbrev pub clear_reconnect_caches : States → States
  clear_reconnect_caches s = no_states

  pub data StateEvent : Type ℓ where
    state : Text → P → Bool → StateEvent
    meter : Text → Text → Bool → StateEvent
    reconnect : StateEvent

  abbrev pub step : StateEvent → States → States
  step (state device_id payload accepted) s = publish_state device_id payload accepted s
  step (meter device_id payload accepted) s = publish_smart_meter device_id payload accepted s
  step reconnect s = clear_reconnect_caches s

  abbrev pub steps : List StateEvent → States → States
  steps [] s = s
  steps (e ∷ es) s = steps es (step e s)
