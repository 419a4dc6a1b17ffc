-- ===== src/Battery/Stable.antt =====
-- The persistent assignment: no two packs share a slot, and no pack ever loses its slot.
use gro_bro.Prelude.{
  ℕ, ◌≡◌, refl, ◌∙◌, ◌⊎◌, inl, inr, Bool, true, false, Option, none, some, List, [], ◌∷◌, arith,
  Bool-cases, Option-cases, All,
}
use gro_bro.Battery.Slots.{
  tracked_slots, contains, Dict, lookup, values, first_free, automatic_slot, with_slot, assign_one,
  assign_all,
}

abbrev pub Distinct : List ℕ → Type 0
Distinct [] = Unit
Distinct (x ∷ xs) = (contains x xs ≡ false) × Distinct xs

abbrev pub IsTracked : ℕ → Type 0
IsTracked s = contains s tracked_slots ≡ true

-- The slots of a device's packs are different, and are slots 2 to 4.
abbrev pub IsStable : Dict → Type 0
IsStable mapping = Distinct (values mapping) × All IsTracked (values mapping)

pub first_free_lem :
    (taken : ℕ → Bool) (ss : List ℕ) (s : ℕ)
    → first_free taken ss ≡ some s
    → (taken s ≡ false) × (contains s ss ≡ true)
first_free_lem taken [] s e = cc
first_free_lem taken (x ∷ ss) s e = elim (Bool-cases (taken x)) [
  | inl used ↦ let (free, there) = first_free_lem taken ss s (rw used at e) in (free, ground arith)
  | inr free ↦
      let same : some x ≡ some s = rw free at e in
      let eq : x ≡ s = ground arith in (rw eq at free, ground arith)
]

pub automatic_slot-free :
    (physical s : ℕ) (mapping : Dict)
    → automatic_slot physical mapping ≡ some s
    → (contains s (values mapping) ≡ false) × IsTracked s
unfolding automatic_slot
automatic_slot-free physical s mapping e = ground arith

automatic_slot-full :
    (physical : ℕ) (mapping : Dict)
    → automatic_slot physical mapping ≡ none
    → All (λ s. contains s (values mapping) ≡ true) tracked_slots
unfolding automatic_slot
automatic_slot-full physical mapping e = ground arith

automatic_slot-own :
    (physical : ℕ) (mapping : Dict)
    → IsTracked physical
    → contains physical (values mapping) ≡ false
    → automatic_slot physical mapping ≡ some physical
unfolding automatic_slot
automatic_slot-own physical mapping tracked free = rw (tracked, free)

pub assign_one-known :
    (physical serial slot : ℕ) (mapping : Dict)
    → lookup serial mapping ≡ some slot
    → assign_one physical serial mapping ≡ mapping
unfolding assign_one
assign_one-known physical serial slot mapping h = ground arith

pub assign_one-fresh :
    (physical serial : ℕ) (mapping : Dict)
    → lookup serial mapping ≡ none
    → assign_one physical serial mapping
      ≡ with_slot serial mapping (automatic_slot physical mapping)
unfolding assign_one
assign_one-fresh physical serial mapping h = ground arith

with_slot-IsStable :
    (serial : ℕ) (mapping : Dict) (o : Option ℕ)
    → ((s : ℕ) → o ≡ some s → (contains s (values mapping) ≡ false) × IsTracked s)
    → IsStable mapping
    → IsStable (with_slot serial mapping o)
with_slot-IsStable serial mapping none free h = h
with_slot-IsStable serial mapping (some s) free h =
    let (unused, tracked) = free s refl in ((unused, h.0), (tracked, h.1))

assign_one-IsStable :
    (physical serial : ℕ) (mapping : Dict)
    → IsStable mapping
    → IsStable (assign_one physical serial mapping)
assign_one-IsStable physical serial mapping h = elim (Option-cases (lookup serial mapping)) [
  | inr (slot, known) ↦ rw (assign_one-known physical serial slot mapping known) h
  | inl new ↦ rw (assign_one-fresh physical serial mapping new) (
      with_slot-IsStable serial mapping (automatic_slot physical mapping)
        (λ s e. automatic_slot-free physical s mapping e) h)
]

-- Whatever packs a device reports, in whatever slots, the stored slots stay different and tracked.
pub assign_all-IsStable :
    (current mapping : Dict) → IsStable mapping → IsStable (assign_all current mapping)
unfolding assign_all
assign_all-IsStable [] mapping h = h
assign_all-IsStable ((physical, serial) ∷ current) mapping h =
    assign_all-IsStable current (assign_one physical serial mapping)
      (assign_one-IsStable physical serial mapping h)

assign_one-keeps :
    (physical serial k s : ℕ) (mapping : Dict)
    → lookup k mapping ≡ some s
    → lookup k (assign_one physical serial mapping) ≡ some s
unfolding assign_one
assign_one-keeps physical serial k s mapping h = ground arith

-- A pack that has a slot keeps it, whatever packs are reported, itself included or not.
pub assign_all-keeps :
    (current mapping : Dict) (k s : ℕ)
    → lookup k mapping ≡ some s
    → lookup k (assign_all current mapping) ≡ some s
unfolding assign_all
assign_all-keeps [] mapping k s h = h
assign_all-keeps ((physical, serial) ∷ current) mapping k s h =
    assign_all-keeps current (assign_one physical serial mapping) k s
      (assign_one-keeps physical serial k s mapping h)

lookup-with_slot :
    (serial : ℕ) (mapping : Dict) (o : Option ℕ)
    → lookup serial mapping ≡ none
    → lookup serial (with_slot serial mapping o) ≡ o
lookup-with_slot serial mapping none h = h
lookup-with_slot serial mapping (some s) h = ground arith

-- A new pack gets a tracked slot that no other pack has, unless all three are taken: then it gets
-- none.
pub assign_one-new :
    (physical serial : ℕ) (mapping : Dict)
    → lookup serial mapping ≡ none
    → ((s : ℕ) × (lookup serial (assign_one physical serial mapping) ≡ some s)
        × (contains s (values mapping) ≡ false)
        × IsTracked s)
      ⊎ ((lookup serial (assign_one physical serial mapping) ≡ none)
          × All (λ s. contains s (values mapping) ≡ true) tracked_slots)
assign_one-new physical serial mapping new =
    let given = lookup-with_slot serial mapping (automatic_slot physical mapping) new in
    rw (assign_one-fresh physical serial mapping new)
      (elim (Option-cases (automatic_slot physical mapping)) [
        | inl full ↦ inr (given ∙ full, automatic_slot-full physical mapping full)
        | inr (s, found) ↦
            let (free, tracked) = automatic_slot-free physical s mapping found in
            inl (s, given ∙ found, free, tracked)
      ])

-- A new pack in a tracked physical slot that is not taken gets this slot.
pub assign_one-own :
    (physical serial : ℕ) (mapping : Dict)
    → lookup serial mapping ≡ none
    → IsTracked physical
    → contains physical (values mapping) ≡ false
    → lookup serial (assign_one physical serial mapping) ≡ some physical
assign_one-own physical serial mapping new tracked free =
    rw (assign_one-fresh physical serial mapping new) (
      lookup-with_slot serial mapping (automatic_slot physical mapping) new
      ∙ automatic_slot-own physical mapping tracked free)
