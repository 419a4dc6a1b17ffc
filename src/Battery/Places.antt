-- ===== src/Battery/Places.antt =====
-- The logical slots of one packet: different for different packs, the manual selections first.
use gro_bro.Prelude.{
  ℕ, ◌≡◌, refl, ◌⊎◌, inl, inr, Bool, true, false, Option, none, some, List, [], ◌∷◌, arith, ◌==◌,
  if◌then◌else◌, Bool-cases, Option-cases,
}
use gro_bro.Battery.Stable.{Distinct, first_free_lem}
use gro_bro.Battery.Slots.{
  contains, Dict, lookup, values, assign_all, Manual, is_pack, explicit_slot, is_reserved,
  add_place, explicit_places, is_taken, wanted_slot, candidates, keep_or_find, place_one,
  place_rest, stabilize_slots, Choice, automatic, empty, pack,
}

abbrev pub slots : Manual → List ℕ
slots [] = []
slots ((slot, c) ∷ m) = slot ∷ slots m

explicit_slot-mem :
    (manual : Manual) (serial k : ℕ)
    → explicit_slot manual serial ≡ some k
    → contains k (slots manual) ≡ true
explicit_slot-mem [] serial k e = cc
explicit_slot-mem ((slot, c) ∷ m) serial k e = ground (arith, explicit_slot-mem m serial k)

is_pack-eq : (s t : ℕ) (c : Choice) → is_pack s c ≡ true → is_pack t c ≡ true → s ≡ t
is_pack-eq s t automatic h k = cc
is_pack-eq s t empty h k = cc
is_pack-eq s t (pack p) h k = ground arith

-- Two serial numbers never have the same explicit slot.
explicit_slot-injective :
    (manual : Manual) (s t k : ℕ)
    → Distinct (slots manual)
    → explicit_slot manual s ≡ some k
    → explicit_slot manual t ≡ some k
    → s ≡ t
explicit_slot-injective [] s t k d e f = cc
explicit_slot-injective ((slot, c) ∷ m) s t k d e f = ground (
  arith,
  is_pack-eq s t c,
  explicit_slot-injective m s t k d.1,
  explicit_slot-mem m s k,
  explicit_slot-mem m t k,
)

explicit_places-absent :
    (manual : Manual) (current : Dict) (s k : ℕ)
    → Distinct (slots manual)
    → explicit_slot manual s ≡ some k
    → contains s (values current) ≡ false
    → contains k (values (explicit_places manual current)) ≡ false
unfolding explicit_places
explicit_places-absent manual [] s k d e h = refl
explicit_places-absent manual ((p, t) ∷ current) s k d e h =
    ground (
      arith,
      explicit_slot-injective manual s t k d e,
      explicit_places-absent manual current s k d e,
    )

explicit_places-Distinct :
    (manual : Manual) (current : Dict)
    → Distinct (slots manual)
    → Distinct (values current)
    → Distinct (values (explicit_places manual current))
unfolding explicit_places
explicit_places-Distinct manual [] d h = tt
explicit_places-Distinct manual ((p, t) ∷ current) d h =
    elim (Option-cases (explicit_slot manual t)) [
      | inl e ↦ rw e (explicit_places-Distinct manual current d h.1)
      | inr (l, e) ↦ rw e (
        explicit_places-absent manual current t l d e h.0,
        explicit_places-Distinct manual current d h.1,
      )
    ]

-- A slot that is kept or found is not taken.
keep_or_find-free :
    (taken : ℕ → Bool) (o : Option ℕ) (physical s : ℕ)
    → keep_or_find taken o physical ≡ some s
    → taken s ≡ false
keep_or_find-free taken none physical s e = (first_free_lem taken (candidates physical) s e).0
keep_or_find-free taken (some slot) physical s e = elim (Bool-cases (taken slot)) [
  | inl used ↦ (first_free_lem taken (candidates physical) s (rw used at e)).0
  | inr free ↦
      let same : some slot ≡ some s = rw free at e in
      let eq : slot ≡ s = ground arith in rw eq at free
]

module _ (use_stable_auto : Bool) (manual : Manual) (mapping : Dict) where
  abbrev found : ℕ → ℕ → Dict → Option ℕ
  found physical serial places =
      keep_or_find (is_taken manual places) (wanted_slot use_stable_auto mapping physical serial)
        physical

  pub place_one-known :
      (physical serial s : ℕ) (places : Dict)
      → lookup physical places ≡ some s
      → place_one use_stable_auto manual mapping physical serial places ≡ places
  unfolding place_one
  place_one-known physical serial s places h = ground arith

  pub place_one-fresh :
      (physical serial : ℕ) (places : Dict)
      → lookup physical places ≡ none
      → place_one use_stable_auto manual mapping physical serial places
        ≡ add_place physical (found physical serial places) places
  unfolding place_one
  place_one-fresh physical serial places h = ground arith

  add_place-Distinct :
      (physical : ℕ) (o : Option ℕ) (places : Dict)
      → ((s : ℕ) → o ≡ some s → is_taken manual places s ≡ false)
      → Distinct (values places)
      → Distinct (values (add_place physical o places))
  add_place-Distinct physical none places free h = h
  add_place-Distinct physical (some s) places free h = let unused = free s refl in (ground arith, h)

  place_one-Distinct :
      (physical serial : ℕ) (places : Dict)
      → Distinct (values places)
      → Distinct (values (place_one use_stable_auto manual mapping physical serial places))
  place_one-Distinct physical serial places h = elim (Option-cases (lookup physical places)) [
    | inr (s, known) ↦ rw (place_one-known physical serial s places known) h
    | inl new ↦ rw (place_one-fresh physical serial places new) (
        add_place-Distinct physical (found physical serial places) places
          (λ s e.
            keep_or_find-free (is_taken manual places)
              (wanted_slot use_stable_auto mapping physical serial) physical s e)
          h)
  ]

  place_rest-Distinct :
      (current places : Dict)
      → Distinct (values places)
      → Distinct (values (place_rest use_stable_auto manual mapping current places))
  unfolding place_rest
  place_rest-Distinct [] places h = h
  place_rest-Distinct ((p, t) ∷ current) places h =
      place_rest-Distinct current (place_one use_stable_auto manual mapping p t places)
        (place_one-Distinct p t places h)

  -- What a pack is given beside the places so far is not reserved by a manual choice.
  abbrev Unreserved : Dict → Dict → Type 0
  Unreserved before after =
      (p k : ℕ)
      → lookup p after ≡ some k
      → (lookup p before ≡ some k) ⊎ (is_reserved manual k ≡ false)

  abbrev Extends : Dict → Dict → Type 0
  Extends before after = (p k : ℕ) → lookup p before ≡ some k → lookup p after ≡ some k

  add_place-Extends :
      (physical : ℕ) (o : Option ℕ) (places : Dict)
      → lookup physical places ≡ none
      → Extends places (add_place physical o places)
  add_place-Extends physical none places new p k h = h
  add_place-Extends physical (some s) places new p k h = ground arith

  place_one-Extends :
      (physical serial : ℕ) (places : Dict)
      → Extends places (place_one use_stable_auto manual mapping physical serial places)
  place_one-Extends physical serial places p k h = elim (Option-cases (lookup physical places)) [
    | inr (s, known) ↦ rw (place_one-known physical serial s places known) h
    | inl new ↦
        rw (place_one-fresh physical serial places new)
          (add_place-Extends physical (found physical serial places) places new p k h)
  ]

  add_place-Unreserved :
      (physical : ℕ) (o : Option ℕ) (places : Dict)
      → ((s : ℕ) → o ≡ some s → is_taken manual places s ≡ false)
      → Unreserved places (add_place physical o places)
  add_place-Unreserved physical none places free p k h = inl h
  add_place-Unreserved physical (some s) places free p k h =
      let unused = free s refl in ground arith

  place_one-Unreserved :
      (physical serial : ℕ) (places : Dict)
      → Unreserved places (place_one use_stable_auto manual mapping physical serial places)
  place_one-Unreserved physical serial places p k h = elim (Option-cases (lookup physical places)) [
    | inr (s, known) ↦ inl (rw (place_one-known physical serial s places known) at h)
    | inl new ↦
        add_place-Unreserved physical (found physical serial places) places
          (λ s e.
            keep_or_find-free (is_taken manual places)
              (wanted_slot use_stable_auto mapping physical serial) physical s e)
          p k (rw (place_one-fresh physical serial places new) at h)
  ]

  place_rest-Extends :
      (current places : Dict)
      → Extends places (place_rest use_stable_auto manual mapping current places)
  unfolding place_rest
  place_rest-Extends [] places p k h = h
  place_rest-Extends ((q, t) ∷ current) places p k h =
      place_rest-Extends current (place_one use_stable_auto manual mapping q t places) p k
        (place_one-Extends q t places p k h)

  place_rest-Unreserved :
      (current places : Dict)
      → Unreserved places (place_rest use_stable_auto manual mapping current places)
  unfolding place_rest
  place_rest-Unreserved [] places p k h = inl h
  place_rest-Unreserved ((q, t) ∷ current) places p k h =
      elim (place_rest-Unreserved current (place_one use_stable_auto manual mapping q t places) p k
        h) [ inl before ↦ place_one-Unreserved q t places p k before | inr free ↦ inr free ]

lookup-add_place :
    (q p : ℕ) (o : Option ℕ) (places : Dict) {found : Option ℕ}
    → (p == q) ≡ false
    → lookup p places ≡ found
    → lookup p (add_place q o places) ≡ found
lookup-add_place q p none places other h = h
lookup-add_place q p (some slot) places other h = rw other h

explicit_places-lookup :
    (manual : Manual) (current : Dict) (p s k : ℕ)
    → lookup p current ≡ some s
    → explicit_slot manual s ≡ some k
    → lookup p (explicit_places manual current) ≡ some k
unfolding explicit_places
explicit_places-lookup manual [] p s k h e = cc
explicit_places-lookup manual ((q, t) ∷ current) p s k h e = elim (Bool-cases (p == q)) [
  | inl same ↦ let eq : t ≡ s = ground arith in rw eq (rw e (ground arith))
  | inr other ↦
      lookup-add_place q p (explicit_slot manual t) (explicit_places manual current) other
        (explicit_places-lookup manual current p s k (ground arith) e)
]

-- For manual choices of different slots and packs with different serial numbers, no two packs get
-- the same logical slot.
pub stabilize_slots-Distinct :
    (use_stable_auto : Bool) (manual : Manual) (current mapping : Dict)
    → Distinct (slots manual)
    → Distinct (values current)
    → Distinct (values (stabilize_slots use_stable_auto manual current mapping).1)
unfolding stabilize_slots
stabilize_slots-Distinct use_stable_auto manual current mapping d h =
    place_rest-Distinct use_stable_auto manual
      (if use_stable_auto then assign_all current mapping else mapping) current
      (explicit_places manual current) (explicit_places-Distinct manual current d h)

-- A pack that a manual choice names gets the slot of that choice.
pub stabilize_slots-chosen :
    (use_stable_auto : Bool) (manual : Manual) (current mapping : Dict) (physical serial slot : ℕ)
    → lookup physical current ≡ some serial
    → explicit_slot manual serial ≡ some slot
    → lookup physical (stabilize_slots use_stable_auto manual current mapping).1 ≡ some slot
unfolding stabilize_slots
stabilize_slots-chosen use_stable_auto manual current mapping physical serial slot there chosen =
    place_rest-Extends use_stable_auto manual
      (if use_stable_auto then assign_all current mapping else mapping) current
      (explicit_places manual current) physical slot
      (explicit_places-lookup manual current physical serial slot there chosen)

-- A pack that is placed was put there by a manual choice that names it, or stands in a slot that no
-- manual choice reserves.
pub stabilize_slots-reserved :
    (use_stable_auto : Bool) (manual : Manual) (current mapping : Dict) (physical slot : ℕ)
    → lookup physical (stabilize_slots use_stable_auto manual current mapping).1 ≡ some slot
    → (lookup physical (explicit_places manual current) ≡ some slot)
      ⊎ (is_reserved manual slot ≡ false)
unfolding stabilize_slots
stabilize_slots-reserved use_stable_auto manual current mapping physical slot placed =
    place_rest-Unreserved use_stable_auto manual
      (if use_stable_auto then assign_all current mapping else mapping) current
      (explicit_places manual current) physical slot placed
