-- ===== src/Watch.antt =====
-- The availability of one device, in grobro/ha/client.py: `__refresh_device_activity`,
-- `__reset_device_timer`, `__publish_availability`, and what `stop` does to it. Callbacks run whole,
-- under the runtime lock. A timer that is registered has not run yet, so it is alive; one that has
-- been replaced or removed may still fire.
pub mod Timely
pub mod Silent
use gro_bro.Prelude.{
  ℕ, ◌+◌, ◌-◌, Bool, true, false, not, ◌&&◌, ◌||◌, Option, none, some, List, [], ◌∷◌, ltb, ◌==◌,
  if◌then◌else◌,
}

-- The time since the callback before, whether a thread can be started for a timer, and whether MQTT
-- takes the availability and the state of the availability sensor.
pub record Env : Type 0 where
  pub elapsed : ℕ
  pub timer_starts : Bool
  pub accepts : Bool
  pub sensor_accepts : Bool

-- The entries of the device in `_device_last_seen`, `_device_timers` (a timer by its number, with the
-- time at which it is due) and `_last_availability`; `clock` is the time of the last callback.
pub record Watch : Type 0 where
  pub last_seen : Option ℕ
  pub timer : Option (ℕ × ℕ)
  pub available : Option Bool
  pub stopped : Bool
  pub clock : ℕ
  pub timers : ℕ

abbrev pub new : Watch
new = record {
  last_seen = none;
  timer = none;
  available = none;
  stopped = false;
  clock = 0;
  timers = 0;
}

abbrev pub is_available : Bool → Option Bool → Bool
is_available online none = false
is_available true (some b) = b
is_available false (some b) = not b

abbrev pub at_time : Env → Watch → Watch
at_time env s = record s { clock = s.clock + env.elapsed }

abbrev pub is_timer : ℕ → Option (ℕ × ℕ) → Bool
is_timer id none = false
is_timer id (some (k, due)) = k == id

-- `arm_timeout`
unfoldable pub arm_timeout : Env → ℕ → Watch → Watch
arm_timeout env delay s =
    let t = record s { timer = some (s.timers, s.clock + delay); timers = s.timers + 1 } in
    if env.timer_starts then t else record s { timer = none }

-- The timeout of the device, whether DEVICE_TIMEOUT is positive, and AVAILABILITY_SENSOR.
module _ (timeout : ℕ) (enabled sensor : Bool) where
  -- `__publish_availability`
  unfoldable pub publish_availability : Env → Bool → Watch → Watch
  publish_availability env online s =
      if is_available online s.available
      then s
      else if env.accepts && (not sensor || env.sensor_accepts)
      then record s { available = some online }
      else s

  abbrev pub unless_armed : Env → Watch → Option (ℕ × ℕ) → Watch
  unless_armed env s (some t) = s
  unless_armed env s none = arm_timeout env timeout s

  -- `__reset_device_timer`
  unfoldable pub reset_device_timer : Env → Watch → Watch
  reset_device_timer env s =
      let t = record s { last_seen = some s.clock } in unless_armed env t s.timer

  -- `__refresh_device_activity`, behind `guard_runtime`.
  unfoldable pub refresh_device_activity : Env → Watch → Watch
  refresh_device_activity env s =
      let t = publish_availability env true s in
      if s.stopped then s else if enabled then reset_device_timer env t else t

  abbrev pub check_seen : Env → Option ℕ → Watch → Watch
  check_seen env none s = record s { timer = none }
  check_seen env (some t) s =
      if ltb s.clock (t + timeout)
      then arm_timeout env (t + timeout - s.clock) s
      else publish_availability env false (record s { timer = none; last_seen = none })

  -- `check_timeout`, for the timer that is registered.
  unfoldable pub fire : Env → ℕ → Watch → Watch
  fire env id s =
      if is_timer id s.timer then (if s.stopped then s else check_seen env s.last_seen s) else s

  -- `stop`; `known` says that the device is in `_config_cache`.
  unfoldable pub stop : Env → Bool → Watch → Watch
  stop env known s =
      let t = record s { timer = none; last_seen = none; stopped = true } in
      if known then publish_availability env false t else t

  -- `__recover_after_home_assistant_restart`, behind `guard_runtime`: what MQTT was told is forgotten.
  unfoldable pub recover : Env → Bool → Watch → Watch
  recover env known s =
      let t = record s { available = none } in
      if s.stopped then s else if known then publish_availability env false t else t

  pub data Event : Type 0 where
    active : Event
    fires : ℕ → Event
    stops : Bool → Event
    recovers : Bool → Event
    starts : Event

  abbrev pub on_event : Env → Event → Watch → Watch
  on_event env active s = refresh_device_activity env s
  on_event env (fires id) s = fire env id s
  on_event env (stops known) s = stop env known s
  on_event env (recovers known) s = recover env known s
  on_event env starts s = record s { stopped = false }

  unfoldable pub run : Watch → List (Env × Event) → Watch
  run s [] = s
  run s ((env, e) ∷ es) = run (on_event env e (at_time env s)) es
