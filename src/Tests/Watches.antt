-- ===== src/Tests/Watches.antt =====
-- A device that is seen once, and again after eighty seconds, with a timeout of a hundred.
use gro_bro.Prelude.{ℕ, ◌≡◌, refl, true, false, some, List, [], ◌∷◌}
use gro_bro.Watch.{
  new, arm_timeout, publish_availability, reset_device_timer, refresh_device_activity, fire, run,
  Env, Event, active, fires,
}
use gro_bro.Watch.Silent.{fire_armed, fire_armed-run}

abbrev after : ℕ → Env
after n = record { elapsed = n; timer_starts = true; accepts = true; sensor_accepts = true }

abbrev history : List (Env × Event 100 true false)
history = (after 5, active) ∷ (after 80, active) ∷ (after 25, fires 0) ∷ []

still_running : (run 100 true false new history).stopped ≡ false
unfolding run refresh_device_activity reset_device_timer publish_availability arm_timeout fire
still_running = refl

-- The timer that fires at 110 is followed by one that is due at 185.
armed_again : (run 100 true false new history).timer ≡ some (1, 185)
unfolding run refresh_device_activity reset_device_timer publish_availability arm_timeout fire
armed_again = refl

fire_armed-run_example :
    (fire_armed 100 true false 3
      (fire_armed 100 true false 2 (run 100 true false new history))).available
    ≡ some false
fire_armed-run_example = fire_armed-run 100 true false history 1 185 2 3 still_running armed_again
