-- ===== src/Battery/Placed.antt =====
-- The places that `stabilize_slots` gives are a dict of different packs in different slots.
use gro_bro.Prelude.{
  ℕ, ◌≡◌, refl, subst, ◌∙◌, inl, inr, Bool, true, false, Option, none, some, List, [], ◌∷◌, arith,
  ◌==◌, if◌then◌else◌, Bool-cases, Option-cases, if_keeps, All,
}
use gro_bro.Battery.Slots.{
  tracked_slots, contains, Dict, lookup, values, assign_all, Manual, is_pack, explicit_slot,
  add_place, explicit_places, is_taken, wanted_slot, candidates, keep_or_find, place_one,
  place_rest, stabilize_slots,
}
use gro_bro.Battery.Stable.{Distinct, IsTracked, IsStable, first_free_lem, assign_all-IsStable}
use gro_bro.Battery.Moves.{AreSlots, lookup-AreSlots}
use gro_bro.Battery.Expected.{keys, lookup-keys, ArePlaces}
use gro_bro.Battery.Places.{slots, place_one-known, place_one-fresh, stabilize_slots-Distinct}
use gro_bro.Battery.Patterns.{IsSlot}

pub tracked-IsSlot : (s : ℕ) → contains s tracked_slots ≡ true → IsSlot s
tracked-IsSlot s h = ground arith

-- What is kept of the places while packs are added.
abbrev Good : Dict → Type 0
Good places = Distinct (keys places) × All IsSlot (keys places) × AreSlots places

add_place-Good :
    (p : ℕ) (o : Option ℕ) (places : Dict)
    → IsSlot p
    → ((l : ℕ) → o ≡ some l → IsSlot l)
    → contains p (keys places) ≡ false
    → Good places
    → Good (add_place p o places)
add_place-Good p none places s h new good = good
add_place-Good p (some l) places s h new good = ((new, good.0), (s, good.1), (h l refl, good.2))

explicit_slot-IsSlot :
    (manual : Manual) (serial l : ℕ)
    → All IsSlot (slots manual)
    → explicit_slot manual serial ≡ some l
    → IsSlot l
explicit_slot-IsSlot [] serial l h e = cc
explicit_slot-IsSlot ((slot, c) ∷ manual) serial l h e =
    elim (Option-cases (explicit_slot manual serial)) [
      | inr (k, later) ↦
          let eq : k ≡ l = let same : some k ≡ some l = rw later at e in ground arith in
          subst IsSlot eq (explicit_slot-IsSlot manual serial k h.1 later)
      | inl first ↦ elim (Bool-cases (is_pack serial c)) [
        | inl names ↦
            let same : some slot ≡ some l = rw (first, names) at e in
            let eq : slot ≡ l = ground arith in subst IsSlot eq h.0
        | inr other ↦ let gone : none ≡ some l = rw (first, other) at e in cc
      ]
    ]

contains-keys-add_place :
    (p q : ℕ) (o : Option ℕ) (places : Dict)
    → (p == q) ≡ false
    → contains p (keys places) ≡ false
    → contains p (keys (add_place q o places)) ≡ false
contains-keys-add_place p q none places ne h = h
contains-keys-add_place p q (some l) places ne h = rw (ne, h) refl

pub explicit_places-absent_key :
    (manual : Manual) (current : Dict) (p : ℕ)
    → contains p (keys current) ≡ false
    → contains p (keys (explicit_places manual current)) ≡ false
unfolding explicit_places
explicit_places-absent_key manual [] p h = refl
explicit_places-absent_key manual ((q, t) ∷ current) p h =
    contains-keys-add_place p q (explicit_slot manual t) (explicit_places manual current)
      (ground arith) (explicit_places-absent_key manual current p (ground arith))

explicit_places-Good :
    (manual : Manual) (current : Dict)
    → All IsSlot (slots manual)
    → Distinct (keys current)
    → All IsSlot (keys current)
    → Good (explicit_places manual current)
unfolding explicit_places
explicit_places-Good manual [] m d s = (tt, tt, tt)
explicit_places-Good manual ((q, t) ∷ current) m d s =
    add_place-Good q (explicit_slot manual t) (explicit_places manual current) s.0
      (λ l e. explicit_slot-IsSlot manual t l m e) (explicit_places-absent_key manual current q d.0)
      (explicit_places-Good manual current m d.1 s.1)

candidates-IsSlot : (p s : ℕ) → contains s (candidates p) ≡ true → IsSlot p → IsSlot s
candidates-IsSlot p s h q = ground arith

keep_or_find-IsSlot :
    (taken : ℕ → Bool) (o : Option ℕ) (p s : ℕ)
    → IsSlot p
    → ((l : ℕ) → o ≡ some l → IsSlot l)
    → keep_or_find taken o p ≡ some s
    → IsSlot s
keep_or_find-IsSlot taken none p s q h e =
    candidates-IsSlot p s (first_free_lem taken (candidates p) s e).1 q
keep_or_find-IsSlot taken (some l) p s q h e = elim (Bool-cases (taken l)) [
  | inl used ↦ candidates-IsSlot p s (first_free_lem taken (candidates p) s (rw used at e)).1 q
  | inr free ↦
      let same : some l ≡ some s = rw free at e in
      let eq : l ≡ s = ground arith in subst IsSlot eq (h l refl)
]

module _ (use_stable_auto : Bool) (manual : Manual) (mapping : Dict) (m : AreSlots mapping) where
  wanted_slot-IsSlot :
      (p serial l : ℕ) → IsSlot p → wanted_slot use_stable_auto mapping p serial ≡ some l → IsSlot l
  wanted_slot-IsSlot p serial l s e = elim (Bool-cases use_stable_auto) [
    | inl auto ↦ lookup-AreSlots mapping serial l m (rw auto at e)
    | inr fixed ↦
        let same : some p ≡ some l = rw fixed at e in
        let eq : p ≡ l = ground arith in subst IsSlot eq s
  ]

  place_one-Good :
      (p serial : ℕ) (places : Dict)
      → IsSlot p
      → Good places
      → Good (place_one use_stable_auto manual mapping p serial places)
  place_one-Good p serial places s good = elim (Option-cases (lookup p places)) [
    | inr (l, known) ↦
        rw (place_one-known use_stable_auto manual mapping p serial l places known) good
    | inl new ↦ rw (place_one-fresh use_stable_auto manual mapping p serial places new) (
        add_place-Good p _ places s
          (λ l e.
            keep_or_find-IsSlot (is_taken manual places)
              (wanted_slot use_stable_auto mapping p serial) p l s
              (λ k f. wanted_slot-IsSlot p serial k s f) e)
          (lookup-keys places p ∙ rw new refl) good)
  ]

  place_rest-Good :
      (current places : Dict)
      → All IsSlot (keys current)
      → Good places
      → Good (place_rest use_stable_auto manual mapping current places)
  unfolding place_rest
  place_rest-Good [] places s good = good
  place_rest-Good ((p, t) ∷ current) places s good =
      place_rest-Good current _ s.1 (place_one-Good p t places s.0 good)

All-tracked : (xs : List ℕ) → All IsTracked xs → All IsSlot xs
All-tracked [] h = tt
All-tracked (x ∷ xs) h = (tracked-IsSlot x h.0, All-tracked xs h.1)

assign_all-AreSlots :
    (use_stable_auto : Bool) (current mapping : Dict)
    → IsStable mapping
    → AreSlots (if use_stable_auto then assign_all current mapping else mapping)
assign_all-AreSlots use_stable_auto current mapping h =
    if_keeps AreSlots use_stable_auto (All-tracked _ (assign_all-IsStable current mapping h).1)
      (All-tracked _ h.1)

-- What is asked of a payload's packs and of the manual choices.
abbrev pub AreReported : Dict → Type 0
AreReported current =
    Distinct (keys current) × Distinct (values current) × All IsSlot (keys current)

abbrev pub AreChoices : Manual → Type 0
AreChoices manual = Distinct (slots manual) × All IsSlot (slots manual)

pub stabilize_slots-ArePlaces :
    (use_stable_auto : Bool) (manual : Manual) (current mapping : Dict)
    → AreChoices manual
    → AreReported current
    → IsStable mapping
    → ArePlaces (stabilize_slots use_stable_auto manual current mapping).1
unfolding stabilize_slots
stabilize_slots-ArePlaces use_stable_auto manual current mapping m c h =
    let good =
      place_rest-Good use_stable_auto manual _
        (assign_all-AreSlots use_stable_auto current mapping h) current
        (explicit_places manual current) c.2 (explicit_places-Good manual current m.1 c.0 c.2) in
    (
      good.0,
      stabilize_slots-Distinct use_stable_auto manual current mapping m.0 c.1,
      good.1,
      good.2,
    )
