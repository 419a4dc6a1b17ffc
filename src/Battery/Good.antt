-- ===== src/Battery/Good.antt =====
-- Mappings of serial numbers to slots that are read again as they were written: what makes them good.
use gro_bro.Prelude.{
  ℕ, ◌≡◌, refl, sym, ◌∙◌, inl, inr, true, some, [], ◌∷◌, arith, if◌then◌else◌, Bool-cases, All,
}
use gro_bro.Bytes.{Text}
use gro_bro.Dicts.{is_text_iff, TextDict, get_item, set_item, IsDict, get_item-set_item}
use gro_bro.Battery.Slots.{tracked_slots, contains, values}
use gro_bro.Battery.Stable.{IsTracked, IsStable}
use gro_bro.Battery.Loaded.{mapping_of}
use gro_bro.Battery.Files.{Positions}
use gro_bro.Battery.Serials.{is_plausible_serial}
use gro_bro.Battery.Persist.{mapping_at}
use gro_bro.Battery.Reread.{IsGood}
use gro_bro.Family.{is_text}

-- Each device's mapping is good.
abbrev pub AreGood : TextDict Positions → Type 0
AreGood maps = IsDict maps × ((i : Text) → IsGood (mapping_at i maps))

pub mapping_at-set_item :
    (k i : Text) (m : Positions) (maps : TextDict Positions)
    → mapping_at k (set_item i m maps) ≡ (if is_text k i then m else mapping_at k maps)
mapping_at-set_item k i m maps = elim (Bool-cases (is_text k i)) [
  | inl same ↦ rw (get_item-set_item k i m maps, same) refl
  | inr other ↦ rw (get_item-set_item k i m maps, other) refl
]

-- Slots that are found are among the slots.
pub lookup_contained :
    (p : Positions) (k : Text) (s : ℕ)
    → get_item k p ≡ some s
    → contains s (values (mapping_of p)) ≡ true
lookup_contained [] k s e = cc
lookup_contained ((j, w) ∷ p) k s e = elim (Bool-cases (is_text k j)) [
  | inl same ↦ ground (arith, same)
  | inr other ↦ let rest = lookup_contained p k s (rw other at e) in ground (arith, rest)
]

tracked_at :
    (p : Positions) (k : Text) (s : ℕ)
    → All IsTracked (values (mapping_of p))
    → get_item k p ≡ some s
    → contains s tracked_slots ≡ true
tracked_at [] k s h e = cc
tracked_at ((j, w) ∷ p) k s h e = elim (Bool-cases (is_text k j)) [
  | inl same ↦ ground (arith, same, h.0)
  | inr other ↦ tracked_at p k s h.1 (rw other at e)
]

one_slot :
    (p : Positions) (j k : Text) (s : ℕ)
    → IsStable (mapping_of p)
    → get_item j p ≡ some s
    → get_item k p ≡ some s
    → j ≡ k
one_slot [] j k s h e f = cc
one_slot ((i, w) ∷ p) j k s h e f = elim (Bool-cases (is_text j i)) [
  | inl first ↦ elim (Bool-cases (is_text k i)) [
    | inl second ↦ (is_text_iff j i).0 first ∙ sym ((is_text_iff k i).0 second)
    | inr other ↦
        let found = lookup_contained p k s (rw other at f) in
        let same : w ≡ s = ground arith in absurd (ground (arith, h.0.0))
  ]
  | inr other ↦ elim (Bool-cases (is_text k i)) [
    | inl second ↦
        let found = lookup_contained p j s (rw other at e) in
        let same : w ≡ s = ground arith in absurd (ground (arith, h.0.0))
    | inr third ↦ one_slot p j k s (h.0.1, h.1.1) (rw other at e) (rw third at f)
  ]
]

pub IsStable-IsGood :
    (p : Positions)
    → IsDict p
    → IsStable (mapping_of p)
    → ((k : Text) (s : ℕ) → get_item k p ≡ some s → is_plausible_serial k ≡ true)
    → IsGood p
IsStable-IsGood p d h plausible =
    (d, λ k s e. (plausible k s e, tracked_at p k s h.1 e), λ j k s e f. one_slot p j k s h e f)

-- A device's new mapping, or what it had where this is empty.
abbrev pub or_old : Positions → Positions → Positions
or_old [] old = old
or_old (e ∷ clean) old = e ∷ clean

pub or_old-nil : (p : Positions) → or_old p [] ≡ p
or_old-nil [] = refl
or_old-nil (e ∷ p) = refl

pub get_item-AreStable :
    (maps : TextDict Positions) (i : Text)
    → All (λ e. IsStable (mapping_of e.1)) maps
    → IsStable (mapping_of (mapping_at i maps))
get_item-AreStable [] i h = (tt, tt)
get_item-AreStable ((j, p) ∷ maps) i h = elim (Bool-cases (is_text i j)) [
  | inl same ↦ rw same (h.0)
  | inr other ↦ rw other (get_item-AreStable maps i h.1)
]
