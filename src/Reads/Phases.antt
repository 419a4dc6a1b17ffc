-- ===== src/Reads/Phases.antt =====
-- The three phases of a config-read sequence, which every callback keeps.
use gro_bro.Prelude.{
  ℕ, ◌+◌, ◌≡◌, refl, subst, Bool, true, false, not, ◌&&◌, Option, none, some, List, [], ◌∷◌, arith,
  ◌==◌, if_keeps,
}
use gro_bro.Reads.{
  Done, cancel, send, request, next_read, unless_inflight, kickoff, is_some_of, timeout, respond,
  fire_start, fire_read, fill, fill_empty, has, queue_all, refresh_config_if_needed, read_all_rest,
  read_all_loop, read_all, reset, stop, start, Sent, accepted, rejected, failed, Env, Reads, Answer,
}

abbrev pub idle_state : Bool → Bool → ℕ → Reads
idle_state refreshed is_stopped count = record {
  queue = none;
  inflight = none;
  read_timer = none;
  start_timer = none;
  active = false;
  refresh_started = refreshed;
  stopped = is_stopped;
  timers = count;
}

abbrev pub waiting_state : ℕ → ℕ → List ℕ → Bool → Bool → ℕ → Reads
waiting_state id r rest refreshed is_stopped count = record {
  queue = some (r ∷ rest);
  inflight = none;
  read_timer = none;
  start_timer = some id;
  active = true;
  refresh_started = refreshed;
  stopped = is_stopped;
  timers = count;
}

abbrev pub reading_state : ℕ → ℕ → List ℕ → Bool → Bool → ℕ → Reads
reading_state id r rest refreshed is_stopped count = record {
  queue = some rest;
  inflight = some r;
  read_timer = some id;
  start_timer = none;
  active = true;
  refresh_started = refreshed;
  stopped = is_stopped;
  timers = count;
}

-- Active, with registers that may be none, and with no timer armed.
abbrev pub between_state : List ℕ → Bool → Bool → ℕ → Reads
between_state rest refreshed is_stopped count = record {
  queue = some rest;
  inflight = none;
  read_timer = none;
  start_timer = none;
  active = true;
  refresh_started = refreshed;
  stopped = is_stopped;
  timers = count;
}

-- Nothing to do and no timer; registers to read and the start timer armed; a register in flight and
-- its timer armed.
pub data Phase : Reads → Type 0 where
  idle : (refreshed stopped : Bool) (timers : ℕ) → Phase (idle_state refreshed stopped timers)
  waiting :
      (id r : ℕ) (rest : List ℕ) (refreshed stopped : Bool) (timers : ℕ)
      → Phase (waiting_state id r rest refreshed stopped timers)
  reading :
      (id r : ℕ) (rest : List ℕ) (refreshed stopped : Bool) (timers : ℕ)
      → Phase (reading_state id r rest refreshed stopped timers)

cancel-Phase : (s : Reads) → Phase (cancel s)
unfolding cancel
cancel-Phase s = idle false s.stopped s.timers

send-Phase : (o : Option Sent) (s : Reads) (r : ℕ) → Phase s → Phase (send o s r).0
unfolding send
send-Phase none s r h = h
send-Phase (some accepted) s r h = h
send-Phase (some rejected) s r h = cancel-Phase s
send-Phase (some failed) s r h = cancel-Phase s

next_read-Phase :
    (env : Env) (rest : List ℕ) (refreshed is_stopped : Bool) (count : ℕ)
    → Phase (next_read env (between_state rest refreshed is_stopped count) (some rest)).0
unfolding next_read request
next_read-Phase env [] refreshed is_stopped count = idle refreshed is_stopped count
next_read-Phase env (r ∷ rest) refreshed is_stopped count =
    let t = reading_state count r rest refreshed is_stopped (count + 1) in
    if_keeps (λ (d : Done). Phase d.0) env.timer_starts
      (send-Phase env.reader t r (reading count r rest refreshed is_stopped (count + 1)))
      (cancel-Phase t)

-- A kickoff between two reads, where it is not stopped.
kickoff-between :
    (env : Env) (rest : List ℕ) (refreshed : Bool) (count : ℕ)
    → Phase (kickoff env (between_state rest refreshed false count)).0
unfolding kickoff unless_inflight
kickoff-between env rest refreshed count =
    if_keeps (λ (d : Done). Phase d.0) env.ready (next_read-Phase env rest refreshed false count)
      (cancel-Phase (between_state rest refreshed false count))

-- The start timer fires, or is late and does nothing.
pub fire_start-Phase : (env : Env) (id : ℕ) {s : Reads} → Phase s → Phase (fire_start env id s).0
unfolding fire_start kickoff unless_inflight
fire_start-Phase env id (idle refreshed is_stopped count) = idle refreshed is_stopped count
fire_start-Phase env id (reading k r rest refreshed is_stopped count) =
    reading k r rest refreshed is_stopped count
fire_start-Phase env id (waiting k r rest refreshed is_stopped count) =
    let here = waiting k r rest refreshed is_stopped count in
    if_keeps (λ (d : Done). Phase d.0) (k == id)
      (if_keeps (λ (d : Done). Phase d.0) is_stopped here
        (if_keeps (λ (d : Done). Phase d.0) env.ready
          (next_read-Phase env (r ∷ rest) refreshed is_stopped count)
          (cancel-Phase (waiting_state k r rest refreshed is_stopped count))))
      here

pub respond-Phase : (env : Env) (r : ℕ) {s : Reads} → Phase s → Phase (respond env r s).0
unfolding respond
respond-Phase env r (idle refreshed true count) = idle refreshed true count
respond-Phase env r (idle refreshed false count) = idle refreshed false count
respond-Phase env r (waiting k q rest refreshed true count) = waiting k q rest refreshed true count
respond-Phase env r (waiting k q rest refreshed false count) =
    waiting k q rest refreshed false count
respond-Phase env r (reading k q rest refreshed true count) = reading k q rest refreshed true count
respond-Phase env r (reading k q rest refreshed false count) =
    if_keeps (λ (d : Done). Phase d.0) (q == r) (kickoff-between env rest refreshed count)
      (reading k q rest refreshed false count)

respond-eq-timeout : (env : Env) (r : ℕ) (s : Reads) → respond env r s ≡ timeout env r s
unfolding respond timeout
respond-eq-timeout env r s = refl

pub timeout-Phase : (env : Env) (r : ℕ) {s : Reads} → Phase s → Phase (timeout env r s).0
timeout-Phase env r {s} h =
    subst (λ (d : Done). Phase d.0) (respond-eq-timeout env r s) (respond-Phase env r h)

pub fire_read-Phase : (env : Env) (id r : ℕ) {s : Reads} → Phase s → Phase (fire_read env id r s).0
unfolding fire_read
fire_read-Phase env id r {s} h =
    if_keeps (λ (d : Done). Phase d.0) (is_some_of id s.read_timer) (timeout-Phase env r h) h

fill-Phase :
    (env : Env) (r : ℕ) (rest : List ℕ) (refreshed is_stopped : Bool) (count : ℕ)
    → Phase (fill env (r ∷ rest) (idle_state refreshed is_stopped count)).0
unfolding fill
fill-Phase env r rest refreshed is_stopped count =
    if_keeps (λ (d : Reads × Answer). Phase d.0) env.timer_starts
      (waiting count r rest true is_stopped (count + 1))
      (cancel-Phase (waiting_state count r rest true is_stopped (count + 1)))

queue_all_idle-Phase :
    (env : Env) (registers : List ℕ) (refreshed is_stopped : Bool) (count : ℕ)
    → Phase (queue_all env registers (idle_state refreshed is_stopped count)).0
unfolding queue_all fill_empty
queue_all_idle-Phase env [] refreshed is_stopped count = idle refreshed is_stopped count
queue_all_idle-Phase env (r ∷ rest) refreshed is_stopped count =
    let here = idle refreshed is_stopped count in
    if_keeps (λ (d : Reads × Answer). Phase d.0) (not (has env.reader)) here
      (if_keeps (λ (d : Reads × Answer). Phase d.0) (not env.ready) here
        (fill-Phase env r rest refreshed is_stopped count))

-- An active sequence is left alone.
queue_all_active :
    (env : Env) (registers : List ℕ) (s : Reads)
    → s.active ≡ true
    → (queue_all env registers s).0 ≡ s
unfolding queue_all
queue_all_active env [] s h = refl
queue_all_active env (r ∷ rest) s h = rw h (ground arith)

pub queue_all-Phase :
    (env : Env) (registers : List ℕ) {s : Reads} → Phase s → Phase (queue_all env registers s).0
queue_all-Phase env registers (idle refreshed is_stopped count) =
    queue_all_idle-Phase env registers refreshed is_stopped count
queue_all-Phase env registers (waiting k r rest refreshed is_stopped count) =
    let s = waiting_state k r rest refreshed is_stopped count in
    rw (queue_all_active env registers s refl) (waiting k r rest refreshed is_stopped count)
queue_all-Phase env registers (reading k r rest refreshed is_stopped count) =
    let s = reading_state k r rest refreshed is_stopped count in
    rw (queue_all_active env registers s refl) (reading k r rest refreshed is_stopped count)

pub refresh_config_if_needed-Phase :
    (wired : Bool) (env : Env) (registers : List ℕ) {s : Reads}
    → Phase s
    → Phase (refresh_config_if_needed wired env registers s)
unfolding refresh_config_if_needed
refresh_config_if_needed-Phase wired env registers {s} h =
    if_keeps Phase (wired && not s.refresh_started) (queue_all-Phase env registers h) h

pub reset-Phase : (s : Reads) → Phase (reset s)
unfolding reset
reset-Phase s = idle false s.stopped s.timers

pub stop-Phase : (s : Reads) → Phase (stop s)
unfolding stop
stop-Phase s = idle false true s.timers

pub start-Phase : {s : Reads} → Phase s → Phase (start s)
unfolding start
start-Phase (idle refreshed is_stopped count) = idle refreshed false count
start-Phase (waiting k r rest refreshed is_stopped count) = waiting k r rest refreshed false count
start-Phase (reading k r rest refreshed is_stopped count) = reading k r rest refreshed false count

fill-read_all-Phase :
    (env : Env) (r : ℕ) (rest : List ℕ) (refreshed is_stopped : Bool) (count : ℕ)
    → Phase (read_all_rest (fill env (r ∷ rest) (idle_state refreshed is_stopped count)))
unfolding fill
fill-read_all-Phase env r rest refreshed is_stopped count =
    let t = waiting_state count r rest true is_stopped (count + 1) in
    if_keeps (λ (d : Reads × Answer). Phase (read_all_rest d)) env.timer_starts
      (waiting count r rest true is_stopped (count + 1)) (cancel-Phase (cancel t))

read_all_rest-Phase :
    (env : Env) (registers : List ℕ) (refreshed is_stopped : Bool) (count : ℕ)
    → Phase (read_all_rest (queue_all env registers (idle_state refreshed is_stopped count)))
unfolding queue_all fill_empty
read_all_rest-Phase env [] refreshed is_stopped count = idle refreshed is_stopped count
read_all_rest-Phase env (r ∷ rest) refreshed is_stopped count =
    let here = idle refreshed is_stopped count in
    if_keeps (λ (d : Reads × Answer). Phase (read_all_rest d)) (not (has env.reader)) here
      (if_keeps (λ (d : Reads × Answer). Phase (read_all_rest d)) (not env.ready) here
        (fill-read_all-Phase env r rest refreshed is_stopped count))

read_all_loop-Phase :
    (env : Env) (registers : List ℕ) (commands : List Sent) (refreshed is_stopped : Bool)
    (count : ℕ)
    → Phase (
        read_all_loop env registers commands
          (record (idle_state refreshed is_stopped count) { active = true }))
unfolding read_all_loop
read_all_loop-Phase env registers [] refreshed is_stopped count =
    read_all_rest-Phase env registers refreshed is_stopped count
read_all_loop-Phase env registers (accepted ∷ commands) refreshed is_stopped count =
    read_all_loop-Phase env registers commands refreshed is_stopped count
read_all_loop-Phase env registers (rejected ∷ commands) refreshed is_stopped count =
    cancel-Phase (record (idle_state refreshed is_stopped count) { active = true })
read_all_loop-Phase env registers (failed ∷ commands) refreshed is_stopped count =
    cancel-Phase (record (idle_state refreshed is_stopped count) { active = true })

pub read_all-Phase :
    (env : Env) (registers : List ℕ) (commands : List Sent) {s : Reads}
    → Phase s
    → Phase (read_all env registers commands s)
unfolding read_all
read_all-Phase env registers commands (idle refreshed is_stopped count) =
    read_all_loop-Phase env registers commands refreshed is_stopped count
read_all-Phase env registers commands (waiting k r rest refreshed is_stopped count) =
    waiting k r rest refreshed is_stopped count
read_all-Phase env registers commands (reading k r rest refreshed is_stopped count) =
    reading k r rest refreshed is_stopped count
