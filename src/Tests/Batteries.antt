-- ===== src/Tests/Batteries.antt =====
-- A device with three packs: 100, which has slot 2, and two others, of which 300 is chosen for 4.
use gro_bro.Prelude.{◌≡◌, refl, true, some, [], ◌∷◌}
use gro_bro.Battery.Slots.{
  Dict, lookup, values, automatic_slot, assign_one, assign_all, Manual, explicit_places, place_one,
  place_rest, stabilize_slots, automatic, pack,
}
use gro_bro.Battery.Stable.{Distinct, IsStable}
use gro_bro.Battery.Places.{slots, stabilize_slots-Distinct}

abbrev mapping : Dict
mapping = (100, 2) ∷ []

abbrev current : Dict
current = (2, 200) ∷ (3, 100) ∷ (4, 300) ∷ []

abbrev manual : Manual
manual = (4, pack 300) ∷ (3, automatic) ∷ []

mapping-IsStable : IsStable mapping
mapping-IsStable = ((refl, tt), (refl, tt))

slots-Distinct : Distinct (slots manual)
slots-Distinct = (refl, (refl, tt))

stabilize_slots-Distinct_example : Distinct (values (stabilize_slots true manual current mapping).1)
stabilize_slots-Distinct_example =
    stabilize_slots-Distinct true manual current mapping slots-Distinct (refl, (refl, (refl, tt)))

-- Pack 100 stays in its stable slot.
kept_place : lookup 3 (stabilize_slots true manual current mapping).1 ≡ some 2
unfolding stabilize_slots assign_all assign_one automatic_slot explicit_places place_rest place_one
kept_place = refl
