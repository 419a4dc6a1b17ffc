-- ===== src/Watch/Timely.antt =====
-- The timer of a device is in time, and a silent device becomes unavailable.
use gro_bro.Prelude.{
  ℕ, ◌+◌, ◌-◌, ◌≤◌, ◌≡◌, refl, ap, Bool, true, false, not, ◌&&◌, ◌||◌, Option, none, some, List, [],
  ◌∷◌, arith, ltb, ltb→lt, if_keeps, if_splits,
}
use gro_bro.Watch.{
  new, is_available, at_time, is_timer, arm_timeout, publish_availability, unless_armed,
  reset_device_timer, refresh_device_activity, check_seen, fire, stop, recover, on_event, run, Env,
  Watch, Event, active, fires, stops, recovers, starts,
}

-- An armed timer belongs to a time at which the device was seen, and is due no later than the timeout
-- after it.
abbrev pub IsTimely : ℕ → Option (ℕ × ℕ) → Option ℕ → ℕ → Type 0
IsTimely timeout none seen clock = Unit {0}
IsTimely timeout (some (id, due)) none clock = true ≡ false
IsTimely timeout (some (id, due)) (some t) clock = (t ≤ clock) × (due ≤ t + timeout)

abbrev seen_or : ℕ → Option ℕ → ℕ
seen_or u none = u
seen_or u (some t) = t

abbrev Timely : ℕ → Watch → Type 0
Timely timeout s = IsTimely timeout s.timer s.last_seen s.clock

later-IsTimely :
    (timeout : ℕ) (timer : Option (ℕ × ℕ)) (seen : Option ℕ) (clock more : ℕ)
    → IsTimely timeout timer seen clock
    → IsTimely timeout timer seen (clock + more)
later-IsTimely timeout none seen clock more h = tt
later-IsTimely timeout (some (id, due)) none clock more h = h
later-IsTimely timeout (some (id, due)) (some t) clock more h = (omega (arith, h.0), h.1)

module _ (timeout : ℕ) (enabled sensor : Bool) where
  publish-Timely :
      (env : Env) (online : Bool) (s : Watch)
      → Timely timeout s
      → Timely timeout (publish_availability timeout enabled sensor env online s)
  unfolding publish_availability
  publish-Timely env online s h =
      if_keeps (Timely timeout) (is_available online s.available) h
        (if_keeps (Timely timeout) (env.accepts && (not sensor || env.sensor_accepts)) h h)

  arm-Timely :
      (env : Env) (delay t : ℕ) (s : Watch)
      → s.last_seen ≡ some t
      → t ≤ s.clock
      → s.clock + delay ≤ t + timeout
      → Timely timeout (arm_timeout env delay s)
  unfolding arm_timeout
  arm-Timely env delay t s e le fits =
      if_keeps (Timely timeout) env.timer_starts (rw e (le, fits)) tt

  unless_armed-Timely :
      (env : Env) (s : Watch) (timer : Option (ℕ × ℕ))
      → IsTimely timeout timer s.last_seen s.clock
      → s.timer ≡ timer
      → Timely timeout
          (unless_armed timeout enabled sensor env (record s { last_seen = some s.clock }) timer)
  unless_armed-Timely env s none h e =
      arm-Timely env timeout s.clock (record s { last_seen = some s.clock }) refl (omega arith)
        (omega arith)
  unless_armed-Timely env s (some (id, due)) h e = rw e (seen_now s.last_seen h)
    where
      seen_now :
          (seen : Option ℕ)
          → IsTimely timeout (some (id, due)) seen s.clock
          → IsTimely timeout (some (id, due)) (some s.clock) s.clock
      seen_now none h = absurd cc
      seen_now (some t) h = (omega arith, omega (arith, h.0, h.1))

  refresh-Timely :
      (env : Env) (s : Watch)
      → Timely timeout s
      → Timely timeout (refresh_device_activity timeout enabled sensor env s)
  unfolding refresh_device_activity reset_device_timer
  refresh-Timely env s h =
      let t = publish_availability timeout enabled sensor env true s in
      let ht = publish-Timely env true s h in
      if_keeps (Timely timeout) s.stopped h
        (if_keeps (Timely timeout) enabled (unless_armed-Timely env t t.timer ht refl) ht)

  seen_before :
      (id : ℕ) (timer : Option (ℕ × ℕ)) (seen : Option ℕ) (clock t : ℕ)
      → is_timer id timer ≡ true
      → IsTimely timeout timer seen clock
      → seen ≡ some t
      → t ≤ clock
  seen_before id none seen clock t h timely e = absurd cc
  seen_before id (some (k, due)) none clock t h timely e = absurd cc
  seen_before id (some (k, due)) (some u) clock t h timely e =
      let same : u ≡ t = ap (λ (o : Option ℕ). seen_or u o) e in omega (arith, timely.0, same)

  check_seen-Timely :
      (env : Env) (s : Watch) (seen : Option ℕ)
      → s.last_seen ≡ seen
      → ((t : ℕ) → s.last_seen ≡ some t → t ≤ s.clock)
      → Timely timeout (check_seen timeout enabled sensor env seen s)
  check_seen-Timely env s none e before = tt
  check_seen-Timely env s (some t) e before =
      if_splits (Timely timeout) (ltb s.clock (t + timeout))
        (λ early.
          arm-Timely env (t + timeout - s.clock) t s e (before t e)
            (omega (arith, ltb→lt s.clock (t + timeout) early)))
        (λ late. publish-Timely env false (record s { timer = none; last_seen = none }) tt)

  fire-Timely :
      (env : Env) (id : ℕ) (s : Watch)
      → Timely timeout s
      → Timely timeout (fire timeout enabled sensor env id s)
  unfolding fire
  fire-Timely env id s h =
      if_splits (Timely timeout) (is_timer id s.timer)
        (λ own. if_keeps (Timely timeout) s.stopped h (
          check_seen-Timely env s s.last_seen refl
            (λ t e. seen_before id s.timer s.last_seen s.clock t own h e)))
        (λ other. h)

  on_event-Timely :
      (env : Env) (e : Event timeout enabled sensor) (s : Watch)
      → Timely timeout s
      → Timely timeout (on_event timeout enabled sensor env e s)
  unfolding stop recover
  on_event-Timely env active s h = refresh-Timely env s h
  on_event-Timely env (fires id) s h = fire-Timely env id s h
  on_event-Timely env (stops known) s h =
      let t = record s { timer = none; last_seen = none; stopped = true } in
      if_keeps (Timely timeout) known (publish-Timely env false t tt) tt
  on_event-Timely env (recovers known) s h =
      let t = record s { available = none } in
      if_keeps (Timely timeout) s.stopped h
        (if_keeps (Timely timeout) known (publish-Timely env false t h) h)
  on_event-Timely env starts s h = h

  run_from-Timely :
      (es : List (Env × Event timeout enabled sensor)) (s : Watch)
      → Timely timeout s
      → Timely timeout (run timeout enabled sensor s es)
  unfolding run
  run_from-Timely [] s h = h
  run_from-Timely ((env, e) ∷ es) s h = run_from-Timely es _ (
      on_event-Timely env e (at_time env s)
        (later-IsTimely timeout s.timer s.last_seen s.clock env.elapsed h))

  pub run-IsTimely :
      (es : List (Env × Event timeout enabled sensor))
      → IsTimely timeout
          (run timeout enabled sensor new es).timer
          (run timeout enabled sensor new es).last_seen
          (run timeout enabled sensor new es).clock
  run-IsTimely es = run_from-Timely es new tt
