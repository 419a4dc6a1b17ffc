-- ===== src/Reads.antt =====
-- The config-read sequence of one device, in grobro/ha/client.py: `__queue_all_config_reads`,
-- `__kickoff_next_config_read`, `__config_read_timeout`, `handle_config_read_response`, the timers
-- and the Read All button. Each callback runs whole, under the runtime lock; a timer that has been
-- cancelled or replaced may still fire.
pub mod Phases
pub mod Drain
pub mod Order
pub mod Run
use gro_bro.Prelude.{
  ℕ, ◌+◌, Bool, true, false, not, ◌&&◌, ◌||◌, Option, none, some, List, [], ◌∷◌, ◌==◌,
  if◌then◌else◌,
}

-- What `on_config_read` does with a request: MQTT takes it, refuses it, or an exception is raised.
pub data Sent : Type 0 where
  accepted : Sent
  rejected : Sent
  failed : Sent

-- What a callback finds around it: whether reads are ready (or no one can tell), `on_config_read`
-- and its answer, and whether a thread can be started for a timer.
pub record Env : Type 0 where
  pub ready : Bool
  pub reader : Option Sent
  pub timer_starts : Bool

-- The entries of the device in the maps and sets of the client. A timer is known by its number;
-- `timers` have been made.
pub record Reads : Type 0 where
  pub queue : Option (List ℕ)
  pub inflight : Option ℕ
  pub read_timer : Option ℕ
  pub start_timer : Option ℕ
  pub active : Bool
  pub refresh_started : Bool
  pub stopped : Bool
  pub timers : ℕ

-- The state after a callback, the registers it asked the device for, and whether it raised.
abbrev pub Done : Type 0
Done = Reads × List ℕ × Bool

abbrev pub quiet : Reads → Done
quiet s = (s, [], false)

-- `__cancel_config_read_sequence`
unfoldable pub cancel : Reads → Reads
cancel s = record s {
  inflight = none;
  queue = none;
  read_timer = none;
  start_timer = none;
  active = false;
  refresh_started = false;
}

unfoldable pub send : Option Sent → Reads → ℕ → Done
send none s r = quiet s
send (some accepted) s r = (s, r ∷ [], false)
send (some rejected) s r = (cancel s, r ∷ [], false)
send (some failed) s r = (cancel s, r ∷ [], true)

-- The request of a register, taken from the front of the queue: its timer first, then the message.
unfoldable pub request : Env → Reads → ℕ → List ℕ → Done
request env s r rest =
    let t = record s {
      queue = some rest;
      inflight = some r;
      read_timer = some s.timers;
      timers = s.timers + 1;
    } in
    if env.timer_starts then send env.reader t r else (cancel t, [], true)

-- What stands behind the test of `inflight`.
unfoldable pub next_read : Env → Reads → Option (List ℕ) → Done
next_read env s (some (r ∷ rest)) = request env s r rest
next_read env s _ = quiet (record s { queue = none; active = false })

unfoldable pub unless_inflight : Env → Reads → Option ℕ → Done
unless_inflight env s (some r) = quiet s
unless_inflight env s none = next_read env s s.queue

-- `__kickoff_next_config_read`
unfoldable pub kickoff : Env → Reads → Done
kickoff env s =
    if s.stopped
    then quiet s
    else if env.ready
    then unless_inflight env (record s { start_timer = none }) s.inflight
    else quiet (cancel s)

abbrev pub is_some_of : ℕ → Option ℕ → Bool
is_some_of k none = false
is_some_of k (some j) = j == k

abbrev pub landed : Reads → Reads
landed s = record s { inflight = none; read_timer = none }

-- `__config_read_timeout`, for the register that its timer was made for.
unfoldable pub timeout : Env → ℕ → Reads → Done
timeout env r s =
    if s.stopped
    then quiet s
    else if is_some_of r s.inflight
    then kickoff env (landed s)
    else quiet s

-- `handle_config_read_response`; the refreshed availability is no part of the sequence.
unfoldable pub respond : Env → ℕ → Reads → Done
respond env r s =
    if s.stopped
    then quiet s
    else if is_some_of r s.inflight
    then kickoff env (landed s)
    else quiet s

-- `run` of `__start_config_read_timer`, for the two maps of timers.
unfoldable pub fire_start : Env → ℕ → Reads → Done
fire_start env id s = if is_some_of id s.start_timer then kickoff env s else quiet s

unfoldable pub fire_read : Env → ℕ → ℕ → Reads → Done
fire_read env id r s = if is_some_of id s.read_timer then timeout env r s else quiet s

pub data Answer : Type 0 where
  queued : Answer
  not_queued : Answer
  raised : Answer

-- The queue is filled, and the first read is left to a timer.
unfoldable pub fill : Env → List ℕ → Reads → Reads × Answer
fill env registers s =
    let t = record s {
      active = true;
      queue = some registers;
      refresh_started = true;
      start_timer = some s.timers;
      timers = s.timers + 1;
    } in
    if env.timer_starts then (t, queued) else (cancel t, raised)

unfoldable pub fill_empty : Env → List ℕ → Reads → Option (List ℕ) → Reads × Answer
fill_empty env registers s (some (r ∷ rest)) = (s, not_queued)
fill_empty env registers s _ = fill env registers s

abbrev pub has : {A : Type 0} → Option A → Bool
has none = false
has (some a) = true

-- `__queue_all_config_reads`, with the config registers of the device; none for an unknown one.
unfoldable pub queue_all : Env → List ℕ → Reads → Reads × Answer
queue_all env [] s = (s, not_queued)
queue_all env (r ∷ rest) s =
    if not (has env.reader)
    then (s, not_queued)
    else if not env.ready
    then (s, not_queued)
    else if s.active || has s.inflight
    then (s, not_queued)
    else fill_empty env (r ∷ rest) s s.queue

-- `__refresh_config_if_needed`; `wired` says that `config_reads_ready` is set.
unfoldable pub refresh_config_if_needed : Bool → Env → List ℕ → Reads → Reads
refresh_config_if_needed wired env registers s =
    if wired && not s.refresh_started then (queue_all env registers s).0 else s

-- The queue of a Read All, behind the reads of the holding registers.
abbrev pub read_all_rest : Reads × Answer → Reads
read_all_rest (s, queued) = s
read_all_rest (s, not_queued) = record s { active = false }
read_all_rest (s, raised) = cancel s

-- The loop over the holding registers stops at the first command that is not accepted.
unfoldable pub read_all_loop : Env → List ℕ → List Sent → Reads → Reads
read_all_loop env registers [] s =
    read_all_rest (queue_all env registers (record s { active = false }))
read_all_loop env registers (accepted ∷ commands) s = read_all_loop env registers commands s
read_all_loop env registers (_ ∷ commands) s = cancel s

-- The Read All button, with what MQTT does with the commands for the holding registers.
unfoldable pub read_all : Env → List ℕ → List Sent → Reads → Reads
read_all env registers commands s =
    if s.active then s else read_all_loop env registers commands (record s { active = true })

-- `__reset_config_read_state`, and what `stop` and `start` do to the sequence.
unfoldable pub reset : Reads → Reads
unfolding cancel
reset s = cancel s

unfoldable pub stop : Reads → Reads
unfolding cancel
stop s = record (cancel s) { stopped = true }

unfoldable pub start : Reads → Reads
start s = record s { stopped = false }
