-- ===== src/Tests/Sequences.antt =====
-- Sequences of config reads and writes.
use gro_bro.Prelude.{ℕ, ◌≤◌, ◌<◌, ◌≡◌, refl, true, false, some, List, [], ◌∷◌, arith, length}
use gro_bro.Reads.Drain.{remaining, drain, drain-run}
use gro_bro.Pending.{
  max_pending_config_writes, new, listed, reserve, settle, step, run, Pending, Event, reserves,
  settles,
}
use gro_bro.Pending.Fifo.{write_all, acknowledge_all, acknowledge_all-write_all, settle-reserve}
use gro_bro.Pending.Bounds.{run-Inv, Inv}
use gro_bro.Reads.{
  send, request, next_read, unless_inflight, kickoff, timeout, fire_start, fire_read, fill,
  fill_empty, queue_all, refresh_config_if_needed, accepted, rejected, Env, Reads,
}
use gro_bro.Reads.Phases.{idle_state, Phase}
use gro_bro.Reads.Order.{read_registers, read_registers-idle}
use gro_bro.Reads.Run.{run-Phase, refreshes, start_fires, read_fires}

abbrev fine : Env
fine = record { ready = true; reader = some accepted; timer_starts = true }

abbrev refused : Env
refused = record { ready = true; reader = some rejected; timer_starts = true }

-- Three registers are queued, the first is asked for, and its timer fires; then MQTT refuses.
abbrev reads : List (Env × gro_bro.Reads.Run.Event)
reads =
    (fine, refreshes true (4 ∷ 5 ∷ 76 ∷ [])) ∷ (fine, start_fires 0) ∷ (fine, read_fires 1 4) ∷ []

run-Phase_example : Phase (gro_bro.Reads.Run.run gro_bro.Reads.Run.new reads)
run-Phase_example = run-Phase reads

reads_live : (gro_bro.Reads.Run.run gro_bro.Reads.Run.new reads).stopped ≡ false
unfolding gro_bro.Reads.Run.run gro_bro.Reads.Run.step gro_bro.Reads.fire_read
    gro_bro.Reads.fire_start gro_bro.Reads.refresh_config_if_needed gro_bro.Reads.queue_all
    gro_bro.Reads.fill_empty gro_bro.Reads.fill gro_bro.Reads.kickoff gro_bro.Reads.unless_inflight
    gro_bro.Reads.next_read gro_bro.Reads.request gro_bro.Reads.send gro_bro.Reads.timeout
reads_live = refl

reads_left : remaining (gro_bro.Reads.Run.run gro_bro.Reads.Run.new reads) ≤ 2
unfolding gro_bro.Reads.Run.run gro_bro.Reads.Run.step gro_bro.Reads.fire_read
    gro_bro.Reads.fire_start gro_bro.Reads.refresh_config_if_needed gro_bro.Reads.queue_all
    gro_bro.Reads.fill_empty gro_bro.Reads.fill gro_bro.Reads.kickoff gro_bro.Reads.unless_inflight
    gro_bro.Reads.next_read gro_bro.Reads.request gro_bro.Reads.send gro_bro.Reads.timeout
reads_left = omega arith

drain-run_example :
    (drain (fine ∷ refused ∷ []) (gro_bro.Reads.Run.run gro_bro.Reads.Run.new reads)).active ≡ false
drain-run_example = drain-run reads (fine ∷ refused ∷ []) reads_live reads_left

read_registers-idle_example :
    (n : ℕ) × (read_registers (4 ∷ 5 ∷ []) (true ∷ false ∷ []) (idle_state false false 7)
      ≡ (4 ∷ 5 ∷ [], idle_state true false n))
read_registers-idle_example = read_registers-idle 4 (5 ∷ []) (true ∷ false ∷ []) false 7 refl

-- Two writes; MQTT refuses the second.
abbrev writes : List gro_bro.Pending.Event
writes = reserves 4 ∷ reserves 5 ∷ settles 1 false ∷ []

run-Inv_example : Inv (gro_bro.Pending.run gro_bro.Pending.new writes)
run-Inv_example = run-Inv writes

acknowledge_all-write_all_example :
    acknowledge_all (0 ∷ 0 ∷ []) (write_all (4 ∷ 5 ∷ []) gro_bro.Pending.new) ≡ 4 ∷ 5 ∷ []
acknowledge_all-write_all_example =
    acknowledge_all-write_all (4 ∷ 5 ∷ []) (0 ∷ 0 ∷ []) (omega arith) refl

writes_live : (gro_bro.Pending.run gro_bro.Pending.new writes).stopped ≡ false
unfolding gro_bro.Pending.run gro_bro.Pending.step settle reserve
writes_live = refl

writes_fit :
    length (listed (gro_bro.Pending.run gro_bro.Pending.new writes).writes)
    < max_pending_config_writes
unfolding gro_bro.Pending.run gro_bro.Pending.step settle reserve
writes_fit = omega arith

settle-reserve_example :
    (settle
      (gro_bro.Pending.run gro_bro.Pending.new writes).next
      false
      (reserve 9 (gro_bro.Pending.run gro_bro.Pending.new writes)).0).writes
    ≡ (gro_bro.Pending.run gro_bro.Pending.new writes).writes
settle-reserve_example = settle-reserve writes 9 writes_live writes_fit
