-- ===== src/Reads/Drain.antt =====
-- A config-read sequence ends by its timers alone, whatever the device and MQTT do.
use gro_bro.Prelude.{
  ℕ, ◌+◌, ◌≤◌, ◌<◌, ◌≡◌, refl, sym, subst, inl, inr, Bool, true, false, Option, none, some, List,
  [], ◌∷◌, arith, if◌then◌else◌, Bool-cases, if_keeps, if_same, length,
}
use gro_bro.Reads.{
  Done, cancel, send, request, next_read, unless_inflight, kickoff, timeout, fire_start, fire_read,
  Sent, accepted, rejected, failed, Env, Reads,
}
use gro_bro.Reads.Phases.{
  waiting_state, reading_state, between_state, fire_start-Phase, fire_read-Phase, Phase, idle,
  waiting, reading,
}
use gro_bro.Reads.Run.{run, new, run-Phase, Event}

abbrev pub queue_list : Option (List ℕ) → List ℕ
queue_list none = []
queue_list (some rest) = rest

abbrev fire_of : Env → Reads → Option ℕ → Option ℕ → Option ℕ → Reads
fire_of env s (some id) _ _ = (fire_start env id s).0
fire_of env s none (some id) (some r) = (fire_read env id r s).0
fire_of env s none _ _ = s

-- How many timers have still to fire, at most.
abbrev pub remaining : Reads → ℕ
remaining s = if s.active then 1 + length (queue_list s.queue) else 0

-- The timer that is armed fires.
unfoldable pub fire_armed : Env → Reads → Reads
fire_armed env s = fire_of env s s.start_timer s.read_timer s.inflight

unfoldable pub drain : List Env → Reads → Reads
drain [] s = s
drain (env ∷ envs) s = drain envs (fire_armed env s)

abbrev IsLess : ℕ → Reads → Type 0
IsLess n s = (s.stopped ≡ false) × (remaining s < n)

send-IsLess : (o : Option Sent) (s : Reads) (r n : ℕ) → 0 < n → IsLess n s → IsLess n (send o s r).0
unfolding send cancel
send-IsLess none s r n p h = h
send-IsLess (some accepted) s r n p h = h
send-IsLess (some rejected) s r n p h = (h.0, p)
send-IsLess (some failed) s r n p h = (h.0, p)

next_read-IsLess :
    (env : Env) (rest : List ℕ) (refreshed : Bool) (count n : ℕ)
    → length rest < n
    → IsLess n (next_read env (between_state rest refreshed false count) (some rest)).0
unfolding next_read request cancel
next_read-IsLess env [] refreshed count n h = (refl, h)
next_read-IsLess env (r ∷ rest) refreshed count n h =
    if_keeps (λ (d : Done). IsLess n d.0) env.timer_starts
      (send-IsLess env.reader (reading_state count r rest refreshed false (count + 1)) r n
        (omega arith) (refl, omega arith))
      (refl, omega arith)

kickoff-IsLess :
    (env : Env) (rest : List ℕ) (refreshed : Bool) (count n : ℕ)
    → length rest < n
    → IsLess n (kickoff env (between_state rest refreshed false count)).0
unfolding kickoff unless_inflight cancel
kickoff-IsLess env rest refreshed count n h =
    if_keeps (λ (d : Done). IsLess n d.0) env.ready (next_read-IsLess env rest refreshed count n h)
      (refl, omega arith)

waiting_kickoff-IsLess :
    (env : Env) (k r : ℕ) (rest : List ℕ) (refreshed : Bool) (count : ℕ)
    → IsLess (1 + length (r ∷ rest)) (kickoff env (waiting_state k r rest refreshed false count)).0
unfolding kickoff unless_inflight cancel
waiting_kickoff-IsLess env k r rest refreshed count =
    if_keeps (λ (d : Done). IsLess (1 + length (r ∷ rest)) d.0) env.ready
      (next_read-IsLess env (r ∷ rest) refreshed count (1 + length (r ∷ rest)) (omega arith))
      (refl, omega arith)

fire_armed-IsLess :
    (env : Env) {s : Reads}
    → Phase s
    → s.stopped ≡ false
    → s.active ≡ true
    → IsLess (remaining s) (fire_armed env s)
unfolding fire_armed fire_start fire_read timeout
fire_armed-IsLess env (idle refreshed is_stopped count) e a = cc
fire_armed-IsLess env (waiting k r rest refreshed true count) e a = cc
fire_armed-IsLess env (reading k r rest refreshed true count) e a = cc
fire_armed-IsLess env (waiting k r rest refreshed false count) e a =
    if_same (λ (d : Done). IsLess (1 + length (r ∷ rest)) d.0) k _
      (waiting_kickoff-IsLess env k r rest refreshed count)
fire_armed-IsLess env (reading k r rest refreshed false count) e a =
    if_same (λ (d : Done). IsLess (1 + length rest) d.0) k _
      (if_same (λ (d : Done). IsLess (1 + length rest) d.0) r _
        (kickoff-IsLess env rest refreshed count (1 + length rest) (omega arith)))

fire_armed-Phase : (env : Env) {s : Reads} → Phase s → Phase (fire_armed env s)
unfolding fire_armed
fire_armed-Phase env (idle refreshed is_stopped count) = idle refreshed is_stopped count
fire_armed-Phase env (waiting k r rest refreshed is_stopped count) =
    fire_start-Phase env k (waiting k r rest refreshed is_stopped count)
fire_armed-Phase env (reading k r rest refreshed is_stopped count) =
    fire_read-Phase env k r (reading k r rest refreshed is_stopped count)

fire_armed_idle : (env : Env) {s : Reads} → Phase s → s.active ≡ false → fire_armed env s ≡ s
unfolding fire_armed
fire_armed_idle env (idle refreshed is_stopped count) e = refl
fire_armed_idle env (waiting k r rest refreshed is_stopped count) e = cc
fire_armed_idle env (reading k r rest refreshed is_stopped count) e = cc

drain_from :
    (envs : List Env) {s : Reads}
    → Phase s
    → s.stopped ≡ false
    → remaining s ≤ length envs
    → (drain envs s).active ≡ false
unfolding drain
drain_from [] {s} h e le = ground arith
drain_from (env ∷ envs) {s} h e le = elim (Bool-cases s.active) [
  | inl busy ↦
      let (going, less) = fire_armed-IsLess env h e busy in
      drain_from envs (fire_armed-Phase env h) going (omega arith)
  | inr over ↦
      let same = fire_armed_idle env h over in
      subst (λ t. (drain envs t).active ≡ false) (sym same) (drain_from envs h e (ground arith))
]

-- From any state of any history in which the client is not stopped, as many firings of the timer
-- that is armed as `remaining` counts end the sequence, whatever MQTT answers, whether or not reads
-- are ready, and where no new timer can be started: so no sequence stays active for ever.
pub drain-run :
    (es : List (Env × Event)) (envs : List Env)
    → (run new es).stopped ≡ false
    → remaining (run new es) ≤ length envs
    → (drain envs (run new es)).active ≡ false
drain-run es envs e le = drain_from envs (run-Phase es) e le
