-- ===== src/Pending.antt =====
-- The config writes of one device that wait for an acknowledgement, in grobro/grobro/client.py:
-- `send_config_message`, the branch of `__on_message` for type 280, and `stop`. The lock is released
-- while MQTT takes a packet, so acknowledgements may come between the two halves of a write.
pub mod Bounds
pub mod Fifo
use gro_bro.Prelude.{
  ℕ, ◌+◌, Bool, true, false, ◌||◌, Option, none, some, List, [], ◌∷◌, ◌++◌, leb, ◌==◌,
  if◌then◌else◌, length,
}

abbrev pub max_pending_config_writes : ℕ
max_pending_config_writes = 128

-- `_PendingRegister`: an int, told from an equal one by its identity.
pub record Reservation : Type 0 where
  pub identity : ℕ
  pub register_no : ℕ

-- The entry of the device in `_pending_config_writes`, its membership in
-- `_config_ack_tracking_disabled`, `_forward_stopped`, and the next fresh identity.
pub record Pending : Type 0 where
  pub writes : Option (List Reservation)
  pub disabled : Bool
  pub stopped : Bool
  pub next : ℕ

abbrev pub new : Pending
new = record { writes = none; disabled = false; stopped = false; next = 0 }

abbrev pub listed : Option (List Reservation) → List Reservation
listed none = []
listed (some ws) = ws

-- `if not pending: self._pending_config_writes.pop(device_id, None)`
abbrev pub nonempty : List Reservation → Option (List Reservation)
nonempty [] = none
nonempty (w ∷ ws) = some (w ∷ ws)

-- A reservation is appended, or the limit ends the tracking for this device.
abbrev pub tracked : ℕ → Pending → Pending × Option ℕ
tracked register_no s =
    let pending = listed s.writes in
    let t = record s { next = s.next + 1 } in
    if leb max_pending_config_writes (length pending)
    then (record t { writes = none; disabled = true }, some s.next)
    else (
      record t {
        writes = some (pending ++ record { identity = s.next; register_no = register_no } ∷ []);
      },
      some s.next,
    )

-- The first half of a write; the identity of its reservation, or none where the client is stopped.
unfoldable pub reserve : ℕ → Pending → Pending × Option ℕ
reserve register_no s =
    let t = record s { next = s.next + 1 } in
    if s.stopped then (t, none) else if s.disabled then (t, some s.next) else tracked register_no s

abbrev pub drop_identity : ℕ → List Reservation → List Reservation
drop_identity k [] = []
drop_identity k (w ∷ ws) = if w.identity == k then ws else w ∷ drop_identity k ws

abbrev pub rolled_back : ℕ → Option (List Reservation) → Option (List Reservation)
rolled_back k none = none
rolled_back k (some ws) = nonempty (drop_identity k ws)

-- The second half: a packet that MQTT does not take gives its reservation back.
unfoldable pub settle : ℕ → Bool → Pending → Pending
settle k accepted s = if accepted then s else record s { writes = rolled_back k s.writes }

-- `parsed_register in pending`
abbrev pub is_pending : ℕ → List Reservation → Bool
is_pending r [] = false
is_pending r (w ∷ ws) = w.register_no == r || is_pending r ws

-- `pending.remove(parsed_register)`
abbrev pub drop_register : ℕ → List Reservation → List Reservation
drop_register r [] = []
drop_register r (w ∷ ws) = if w.register_no == r then ws else w ∷ drop_register r ws

abbrev pub answered : ℕ → List Reservation → List Reservation
answered r ws = if is_pending r ws then drop_register r ws else ws

abbrev pub oldest : ℕ → List Reservation → ℕ × List Reservation
oldest r [] = (r, [])
oldest r (w ∷ ws) = (w.register_no, ws)

-- An acknowledgement, where `named` says that the device has a config register of the number it
-- reports; the register that it is taken for.
unfoldable pub acknowledge : Bool → ℕ → Pending → Pending × ℕ
acknowledge true r s = (record s { writes = nonempty (answered r (listed s.writes)) }, r)
acknowledge false r s =
    let (register_no, ws) = oldest r (listed s.writes) in
    (record s { writes = nonempty ws }, register_no)

unfoldable pub stop : Pending → Pending
stop s = record s { writes = none; disabled = false; stopped = true }

pub data Event : Type 0 where
  reserves : ℕ → Event
  settles : ℕ → Bool → Event
  acknowledges : Bool → ℕ → Event
  stops : Event

unfoldable pub step : Pending → Event → Pending
step s (reserves r) = (reserve r s).0
step s (settles k accepted) = settle k accepted s
step s (acknowledges named r) = (acknowledge named r s).0
step s stops = stop s

unfoldable pub run : Pending → List Event → Pending
run s [] = s
run s (e ∷ es) = run (step s e) es
