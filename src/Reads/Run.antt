-- ===== src/Reads/Run.antt =====
-- Every history of a config-read sequence: any callbacks in any order, late timers included.
use gro_bro.Prelude.{ℕ, Bool, false, List, [], ◌∷◌, if◌then◌else◌, if_keeps}
use gro_bro.Reads.{
  respond, fire_start, fire_read, refresh_config_if_needed, read_all, reset, stop, start, Sent, Env,
  Reads,
}
use gro_bro.Reads.Phases.{
  idle_state, fire_start-Phase, respond-Phase, fire_read-Phase, refresh_config_if_needed-Phase,
  reset-Phase, stop-Phase, start-Phase, read_all-Phase, Phase, idle,
}

pub data Event : Type 0 where
  refreshes : Bool → List ℕ → Event
  reads_all : List ℕ → List Sent → Event
  start_fires : ℕ → Event
  read_fires : ℕ → ℕ → Event
  responds : ℕ → Event
  resets : Event
  stops : Event
  starts : Event

-- `__on_message` and the guards look at `_stopped` first.
abbrev unless_stopped : Reads → Reads → Reads
unless_stopped s t = if s.stopped then s else t

unfoldable pub step : Reads → Env × Event → Reads
step s (env, refreshes wired registers) =
    unless_stopped s (refresh_config_if_needed wired env registers s)
step s (env, reads_all registers commands) = unless_stopped s (read_all env registers commands s)
step s (env, start_fires id) = (fire_start env id s).0
step s (env, read_fires id r) = (fire_read env id r s).0
step s (env, responds r) = (respond env r s).0
step s (env, resets) = unless_stopped s (reset s)
step s (env, stops) = stop s
step s (env, starts) = start s

unfoldable pub run : Reads → List (Env × Event) → Reads
run s [] = s
run s (e ∷ es) = run (step s e) es

-- `initialize_instance_state`
abbrev pub new : Reads
new = idle_state false false 0

step-Phase : (e : Env × Event) {s : Reads} → Phase s → Phase (step s e)
unfolding step
step-Phase (env, refreshes wired registers) {s} h =
    if_keeps Phase s.stopped h (refresh_config_if_needed-Phase wired env registers h)
step-Phase (env, reads_all registers commands) {s} h =
    if_keeps Phase s.stopped h (read_all-Phase env registers commands h)
step-Phase (env, start_fires id) h = fire_start-Phase env id h
step-Phase (env, read_fires id r) h = fire_read-Phase env id r h
step-Phase (env, responds r) h = respond-Phase env r h
step-Phase (env, resets) {s} h = if_keeps Phase s.stopped h (reset-Phase s)
step-Phase (env, stops) {s} h = stop-Phase s
step-Phase (env, starts) h = start-Phase h

run-Phase-from : (es : List (Env × Event)) {s : Reads} → Phase s → Phase (run s es)
unfolding run
run-Phase-from [] h = h
run-Phase-from (e ∷ es) {s} h = run-Phase-from es (step-Phase e h)

-- After any history of callbacks, with late timers, refused messages and threads that do not start,
-- the sequence is in one of three phases: nothing is active, queued or armed; or it is active with
-- registers queued and just the start timer armed; or it is active with one register in flight and
-- just that register's timer armed. So an active sequence always has a timer that will go on with it.
pub run-Phase : (es : List (Env × Event)) → Phase (run new es)
run-Phase es = run-Phase-from es (idle false false 0)
