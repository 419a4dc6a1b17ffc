-- ===== src/Battery/Slots.antt =====
-- The three loops that assign logical slots: the persistent automatic one, the explicit manual
-- selections, and the packs that are left.
use gro_bro.Prelude.{
  ℕ, Bool, true, false, not, ◌&&◌, ◌||◌, Option, none, some, List, [], ◌∷◌, ◌==◌, if◌then◌else◌,
}

abbrev pub tracked_slots : List ℕ
tracked_slots = 2 ∷ 3 ∷ 4 ∷ []

abbrev pub contains : ℕ → List ℕ → Bool
contains x [] = false
contains x (y ∷ ys) = x == y || contains x ys

abbrev pub Dict : Type 0
Dict = List (ℕ × ℕ)

abbrev pub lookup : ℕ → Dict → Option ℕ
lookup k [] = none
lookup k ((j, v) ∷ d) = if k == j then some v else lookup k d

abbrev pub values : Dict → List ℕ
values [] = []
values ((k, v) ∷ d) = v ∷ values d

-- `next((slot for slot in _ if not taken(slot)), None)`
abbrev pub first_free : (ℕ → Bool) → List ℕ → Option ℕ
first_free taken [] = none
first_free taken (s ∷ ss) = if taken s then first_free taken ss else some s

-- `reserved_slots` is kept equal to the values of the mapping.
unfoldable pub automatic_slot : ℕ → Dict → Option ℕ
automatic_slot physical mapping =
    let reserved = values mapping in
    if contains physical tracked_slots && not (contains physical reserved)
    then some physical
    else first_free (λ s. contains s reserved) tracked_slots

abbrev pub with_slot : ℕ → Dict → Option ℕ → Dict
with_slot serial mapping none = mapping
with_slot serial mapping (some slot) = (serial, slot) ∷ mapping

unfoldable pub assign_one : ℕ → ℕ → Dict → Dict
assign_one physical serial mapping = elim (lookup serial mapping) [
  | some slot ↦ mapping
  | none ↦ with_slot serial mapping (automatic_slot physical mapping)
]

-- `for physical_slot, serial in current_serials.items()`, where a pack without a slot gets one.
unfoldable pub assign_all : Dict → Dict → Dict
assign_all [] mapping = mapping
assign_all ((physical, serial) ∷ current) mapping =
    assign_all current (assign_one physical serial mapping)

-- A manual choice for a slot.
pub data Choice : Type 0 where
  automatic : Choice
  empty : Choice
  pack : ℕ → Choice

abbrev pub Manual : Type 0
Manual = List (ℕ × Choice)

abbrev pub is_pack : ℕ → Choice → Bool
is_pack serial (pack s) = serial == s
is_pack serial _ = false

abbrev pub or_slot : Option ℕ → Bool → ℕ → Option ℕ
or_slot (some s) test slot = some s
or_slot none test slot = if test then some slot else none

-- `explicit_slot_by_serial`, in which the last slot of a serial number wins.
abbrev pub explicit_slot : Manual → ℕ → Option ℕ
explicit_slot [] serial = none
explicit_slot ((slot, c) ∷ m) serial = or_slot (explicit_slot m serial) (is_pack serial c) slot

abbrev pub is_chosen : Choice → Bool
is_chosen automatic = false
is_chosen _ = true

-- `reserved_manual_slots`
abbrev pub is_reserved : Manual → ℕ → Bool
is_reserved [] s = false
is_reserved ((slot, c) ∷ m) s = (s == slot && is_chosen c) || is_reserved m s

abbrev pub add_place : ℕ → Option ℕ → Dict → Dict
add_place physical none places = places
add_place physical (some slot) places = (physical, slot) ∷ places

-- The loop over the explicit selections; it gives `physical_to_logical`, whose values are
-- `used_slots`.
unfoldable pub explicit_places : Manual → Dict → Dict
explicit_places manual [] = []
explicit_places manual ((physical, serial) ∷ current) =
    add_place physical (explicit_slot manual serial) (explicit_places manual current)

abbrev pub is_taken : Manual → Dict → ℕ → Bool
is_taken manual places s = is_reserved manual s || contains s (values places)

abbrev pub wanted_slot : Bool → Dict → ℕ → ℕ → Option ℕ
wanted_slot use_stable_auto mapping physical serial =
    if use_stable_auto then lookup serial mapping else some physical

abbrev pub candidates : ℕ → List ℕ
candidates physical =
    if contains physical tracked_slots then physical ∷ tracked_slots else tracked_slots

abbrev pub keep_or_find : (ℕ → Bool) → Option ℕ → ℕ → Option ℕ
keep_or_find taken none physical = first_free taken (candidates physical)
keep_or_find taken (some slot) physical =
    if taken slot then first_free taken (candidates physical) else some slot

unfoldable pub place_one : Bool → Manual → Dict → ℕ → ℕ → Dict → Dict
place_one use_stable_auto manual mapping physical serial places = elim (lookup physical places) [
  | some slot ↦ places
  | none ↦
      add_place physical
        (keep_or_find (is_taken manual places) (wanted_slot use_stable_auto mapping physical serial)
          physical)
        places
]

-- The loop over the packs that have no explicit slot.
unfoldable pub place_rest : Bool → Manual → Dict → Dict → Dict → Dict
place_rest use_stable_auto manual mapping [] places = places
place_rest use_stable_auto manual mapping ((physical, serial) ∷ current) places =
    place_rest use_stable_auto manual mapping current
      (place_one use_stable_auto manual mapping physical serial places)

-- The mapping after a packet, and the logical slot of each physical one.
unfoldable pub stabilize_slots : Bool → Manual → Dict → Dict → Dict × Dict
stabilize_slots use_stable_auto manual current mapping =
    let mapping' = if use_stable_auto then assign_all current mapping else mapping in
    (mapping', place_rest use_stable_auto manual mapping' current (explicit_places manual current))
