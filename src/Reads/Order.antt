-- ===== src/Reads/Order.antt =====
-- Which registers a sequence asks for, and in which order.
use gro_bro.Prelude.{
  ℕ, suc, ◌+◌, ◌≡◌, refl, Bool, true, false, Option, some, List, [], ◌∷◌, ◌++◌, arith, if_same,
  length,
}
use gro_bro.Reads.{
  Done, quiet, send, request, next_read, unless_inflight, kickoff, timeout, respond, fire_start,
  fire_read, fill, fill_empty, queue_all, accepted, Env, Reads,
}
use gro_bro.Reads.Phases.{idle_state, reading_state, between_state}

-- Reads are ready, MQTT takes every request, and threads can be started.
abbrev pub fine : Env
fine = record { ready = true; reader = some accepted; timer_starts = true }

abbrev complete_of : Bool → Reads → Option ℕ → Option ℕ → Done
complete_of true s timer (some r) = respond fine r s
complete_of false s (some id) (some r) = fire_read fine id r s
complete_of _ s _ _ = quiet s

-- The register in flight is answered, or its timer fires.
unfoldable pub complete : Bool → Reads → Done
complete answered s = complete_of answered s s.read_timer s.inflight

-- The registers asked for from now on, and the state at the end.
unfoldable pub follow : List Bool → Reads → List ℕ × Reads
follow [] s = ([], s)
follow (answered ∷ more) s =
    let (t, asked, error) = complete answered s in
    let (later, end) = follow more t in (asked ++ later, end)

-- What one callback asked for, and what follows it.
abbrev pub and_follow : List Bool → Done → List ℕ × Reads
and_follow answers (t, asked, error) = let (later, end) = follow answers t in (asked ++ later, end)

-- The registers are queued, the start timer fires, and then each request is answered or times out.
unfoldable pub read_registers : List ℕ → List Bool → Reads → List ℕ × Reads
read_registers registers answers s =
    and_follow answers (fire_start fine s.timers (queue_all fine registers s).0)

complete-reading :
    (answered : Bool) (k r : ℕ) (rest : List ℕ) (refreshed : Bool) (count : ℕ)
    → complete answered (reading_state k r rest refreshed false count)
      ≡ kickoff fine (between_state rest refreshed false count)
unfolding complete respond fire_read timeout
complete-reading true k r rest refreshed count =
    let next = kickoff fine (between_state rest refreshed false count) in
    if_same (λ (d : Done). d ≡ next) r _ refl
complete-reading false k r rest refreshed count =
    let next = kickoff fine (between_state rest refreshed false count) in
    if_same (λ (d : Done). d ≡ next) k _ (if_same (λ (d : Done). d ≡ next) r _ refl)

follow-reading :
    (answers : List Bool) (k r : ℕ) (rest : List ℕ) (refreshed : Bool) (count : ℕ)
    → length answers ≡ suc (length rest)
    → (n : ℕ) × (follow answers (reading_state k r rest refreshed false count)
        ≡ (rest, idle_state refreshed false n))
unfolding follow kickoff unless_inflight next_read request send
follow-reading [] k r rest refreshed count e = absurd (omega arith)
follow-reading (answered ∷ []) k r [] refreshed count e =
    (count, rw (complete-reading answered k r [] refreshed count))
follow-reading (answered ∷ x ∷ more) k r [] refreshed count e = absurd (omega arith)
follow-reading (answered ∷ more) k r (q ∷ rest) refreshed count e =
    let (n, later) = follow-reading more count q rest refreshed (count + 1) (omega arith) in
    (n, rw (complete-reading answered k r (q ∷ rest) refreshed count, later))

-- Where reads are ready, MQTT takes every request and threads can be started, an idle sequence asks
-- for each config register of the device once, in their order, whether the device answers a request
-- or lets it time out, and is idle again behind the last one.
pub read_registers-idle :
    (r : ℕ) (rest : List ℕ) (answers : List Bool) (refreshed : Bool) (count : ℕ)
    → length answers ≡ length (r ∷ rest)
    → (n : ℕ) × (read_registers (r ∷ rest) answers (idle_state refreshed false count)
        ≡ (r ∷ rest, idle_state true false n))
unfolding read_registers queue_all fill_empty fill fire_start kickoff unless_inflight next_read
    request send
read_registers-idle r rest answers refreshed count e =
    let (n, later) = follow-reading answers (count + 1) r rest true (count + 1 + 1) e in
    let end = idle_state true false n in
    (n, if_same (λ (d : Done). and_follow answers d ≡ (r ∷ rest, end)) count _ (rw later))
