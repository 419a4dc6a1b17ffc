-- ===== src/Watch/Silent.antt =====
-- A silent device becomes unavailable.
use gro_bro.Prelude.{
  ℕ, ◌+◌, ◌-◌, ◌≤◌, ◌<◌, ◌≡◌, refl, ap, ◌∙◌, inl, inr, Bool, true, false, not, ◌||◌, Option, none,
  some, List, arith, ltb, leb, if◌then◌else◌, ltb→lt, lt→ltb, ltb_false→le, le→ltb_false, ==_iff,
  Bool-cases, if_keeps, if_yes, if_none,
}
use gro_bro.Watch.{
  new, is_available, is_timer, arm_timeout, publish_availability, check_seen, fire, run, Env, Watch,
  Event,
}
use gro_bro.Watch.Timely.{IsTimely, run-IsTimely}

-- MQTT takes everything, and threads can be started.
abbrev pub fine : Env
fine = record { elapsed = 0; timer_starts = true; accepts = true; sensor_accepts = true }

abbrev pub later : ℕ → ℕ → ℕ
later a b = if leb a b then b else a

later_le : (a b : ℕ) → b ≤ later a b
later_le a b = ground arith

module _ (timeout : ℕ) (enabled sensor : Bool) where
  abbrev fire_of : Watch → Option (ℕ × ℕ) → ℕ → Watch
  fire_of s none late = s
  fire_of s (some (id, due)) late =
      fire timeout enabled sensor fine id (record s { clock = later s.clock due + late })

  -- The timer that is registered fires, `late` after it is due.
  unfoldable pub fire_armed : ℕ → Watch → Watch
  fire_armed late s = fire_of s s.timer late

  offline :
      (s : Watch) (with_sensor : Bool) (before : Option Bool)
      → s.available ≡ before
      → (if is_available false before
          then s
          else if not with_sensor || true
          then record s { available = some false }
          else s).available
        ≡ some false
  offline s true none e = refl
  offline s false none e = refl
  offline s true (some true) e = refl
  offline s false (some true) e = refl
  offline s b (some false) e = e

  own_timer : (s : Watch) (id due : ℕ) → s.timer ≡ some (id, due) → is_timer id s.timer ≡ true
  own_timer s id due armed =
      ap (λ (o : Option (ℕ × ℕ)). is_timer id o) armed ∙ (==_iff id id).1 refl

  publish_offline :
      (s : Watch)
      → (publish_availability timeout enabled sensor fine false s).available ≡ some false
  unfolding publish_availability
  publish_offline s = offline s sensor s.available refl

  publish-timer :
      (s : Watch) → (publish_availability timeout enabled sensor fine false s).timer ≡ s.timer
  unfolding publish_availability
  publish-timer s =
      if_keeps (λ (q : Watch). q.timer ≡ s.timer) (is_available false s.available) refl
        (if_keeps (λ (q : Watch). q.timer ≡ s.timer) (not sensor || true) refl refl)

  -- A timer that fires when the timeout is over.
  fire_over :
      (s : Watch) (id due t : ℕ)
      → s.timer ≡ some (id, due)
      → s.last_seen ≡ some t
      → s.stopped ≡ false
      → t + timeout ≤ s.clock
      → fire timeout enabled sensor fine id s
        ≡ publish_availability timeout enabled sensor fine false
            (record s { timer = none; last_seen = none })
  unfolding fire
  fire_over s id due t armed seen on over =
      if_yes s (own_timer s id due armed)
      ∙ if_none s on
      ∙ ap (λ (o : Option ℕ). check_seen timeout enabled sensor fine o s) seen
      ∙ if_none _ (le→ltb_false s.clock (t + timeout) over)

  fire_early :
      (s : Watch) (id due t : ℕ)
      → s.timer ≡ some (id, due)
      → s.last_seen ≡ some t
      → s.stopped ≡ false
      → s.clock < t + timeout
      → fire timeout enabled sensor fine id s ≡ record s {
        timer = some (s.timers, s.clock + (t + timeout - s.clock));
        timers = s.timers + 1;
      }
  unfolding fire arm_timeout
  fire_early s id due t armed seen on early =
      if_yes s (own_timer s id due armed)
      ∙ if_none s on
      ∙ ap (λ (o : Option ℕ). check_seen timeout enabled sensor fine o s) seen
      ∙ if_yes _ (lt→ltb s.clock (t + timeout) early)

  -- Two firings, from a state whose timer is registered.
  fire_twice :
      (s : Watch) (id due t first second : ℕ)
      → s.timer ≡ some (id, due)
      → s.last_seen ≡ some t
      → s.stopped ≡ false
      → (fire_armed second (fire_armed first s)).available ≡ some false
  unfolding fire_armed
  fire_twice s id due t first second armed seen on =
      let u : Watch = record s { clock = later s.clock due + first } in
      let once : fire_armed first s ≡ fire timeout enabled sensor fine id u =
        ap (λ (o : Option (ℕ × ℕ)). fire_of s o first) armed in
      elim (Bool-cases (ltb u.clock (t + timeout))) [
        | inl early ↦
            let end = u.clock + (t + timeout - u.clock) in
            let w : Watch = record u { timer = some (u.timers, end); timers = u.timers + 1 } in
            let v : Watch = record w { clock = later w.clock end + second } in
            let armed_again : fire_armed first s ≡ w =
              once ∙ fire_early u id due t armed seen on (ltb→lt u.clock (t + timeout) early) in
            ap (λ (q : Watch). (fire_armed second q).available) armed_again
            ∙ ap (λ (q : Watch). q.available)
                (fire_over v u.timers end t refl seen on (omega (arith, later_le w.clock end)))
            ∙ publish_offline (record v { timer = none; last_seen = none })
        | inr over ↦
            let w : Watch = record u { timer = none; last_seen = none } in
            let p = publish_availability timeout enabled sensor fine false w in
            let done : fire_armed first s ≡ p =
              once ∙ fire_over u id due t armed seen on (ltb_false→le u.clock (t + timeout) over) in
            ap (λ (q : Watch). (fire_armed second q).available) done
            ∙ ap (λ (o : Option (ℕ × ℕ)). (fire_of p o second).available) (publish-timer w)
            ∙ publish_offline w
      ]

  timer_seen :
      (timer : Option (ℕ × ℕ)) (seen : Option ℕ) (clock id due : ℕ)
      → timer ≡ some (id, due)
      → IsTimely timeout timer seen clock
      → (t : ℕ) × (seen ≡ some t)
  timer_seen none seen clock id due e h = absurd cc
  timer_seen (some x) none clock id due e h = absurd cc
  timer_seen (some x) (some t) clock id due e h = (t, refl)

  -- After any history in which the client is not stopped and the timer of the device is registered: when
  -- the device sends nothing more, the timer, and the one that it may be followed by, fire, however
  -- late, MQTT takes every message and threads can be started, the device is unavailable.
  pub fire_armed-run :
      (es : List (Env × Event timeout enabled sensor)) (id due first second : ℕ)
      → (run timeout enabled sensor new es).stopped ≡ false
      → (run timeout enabled sensor new es).timer ≡ some (id, due)
      → (fire_armed second (fire_armed first (run timeout enabled sensor new es))).available
        ≡ some false
  fire_armed-run es id due first second on armed =
      let s = run timeout enabled sensor new es in
      let (t, seen) =
        timer_seen s.timer s.last_seen s.clock id due armed
          (run-IsTimely timeout enabled sensor es) in
      fire_twice s id due t first second armed seen on
