-- ===== src/Battery/Assigned.antt =====
-- What the loop over the reported packs does to the mapping of their device.
use gro_bro.Prelude.{
  ℕ, ◌+◌, ◌<◌, ◌≡◌, refl, sym, ap, ◌∙◌, ◌⊎◌, inl, inr, true, false, Option, none, some, List, [],
  ◌∷◌, arith, Bool-cases, length, All,
}
use gro_bro.Bytes.{Text}
use gro_bro.Dicts.{is_text_iff, get_item, set_item, get_item-set_item, set_item-IsDict}
use gro_bro.Battery.Slots.{tracked_slots, contains, values, automatic_slot}
use gro_bro.Battery.Stable.{automatic_slot-free}
use gro_bro.Battery.Loaded.{mapping_of}
use gro_bro.Battery.Files.{Positions}
use gro_bro.Battery.Serials.{is_plausible_serial}
use gro_bro.Battery.Persist.{with_serial, assign_serial, assign_serials}
use gro_bro.Battery.Reread.{IsGood}
use gro_bro.Battery.Good.{lookup_contained}
use gro_bro.Family.{is_text}

-- Packs with plausible serial numbers.
abbrev pub ArePlausible : List (ℕ × Text) → Type 0
ArePlausible = All (λ e. is_plausible_serial e.1 ≡ true)

-- What one pack makes of a mapping: no change, or one new serial number with a free slot.
abbrev IsStep : Text → Positions → Positions → Type 0
IsStep serial m m' =
    (m' ≡ m)
    ⊎ ((slot : ℕ) × (m' ≡ set_item serial slot m)
        × (get_item serial m ≡ none)
        × (contains slot (values (mapping_of m)) ≡ false)
        × (contains slot tracked_slots ≡ true))

with_serial-IsStep :
    (physical : ℕ) (serial : Text) (m : Positions) (o : Option ℕ)
    → automatic_slot physical (mapping_of m) ≡ o
    → get_item serial m ≡ none
    → IsStep serial m (with_serial serial m o)
with_serial-IsStep physical serial m none e new = inl refl
with_serial-IsStep physical serial m (some slot) e new =
    let (free, tracked) = automatic_slot-free physical slot (mapping_of m) e in
    inr (slot, refl, new, free, tracked)

assign_serial-IsStep :
    (physical : ℕ) (serial : Text) (m : Positions) (o : Option ℕ)
    → get_item serial m ≡ o
    → IsStep serial m (assign_serial physical serial m o)
assign_serial-IsStep physical serial m (some slot) e = inl refl
assign_serial-IsStep physical serial m none e =
    with_serial-IsStep physical serial m (automatic_slot physical (mapping_of m)) refl e

length-set_item :
    (k : Text) (v : ℕ) (m : Positions)
    → get_item k m ≡ none
    → length (set_item k v m) ≡ length m + 1
length-set_item k v [] h = refl
length-set_item k v ((j, w) ∷ m) h = elim (Bool-cases (is_text k j)) [
  | inl same ↦ let wrong : some w ≡ none = rw same at h in cc
  | inr other ↦ rw other (omega (arith, length-set_item k v m (rw other at h)))
]

set_item-keeps :
    (serial k : Text) (slot s : ℕ) (m : Positions)
    → get_item serial m ≡ none
    → get_item k m ≡ some s
    → get_item k (set_item serial slot m) ≡ some s
set_item-keeps serial k slot s m new e = elim (Bool-cases (is_text k serial)) [
  | inl same ↦
      let gone : get_item k m ≡ none = rw ((is_text_iff k serial).0 same) new in
      let wrong : none ≡ some s = sym gone ∙ e in cc
  | inr other ↦ rw (get_item-set_item k serial slot m, other) e
]

not_there :
    (m : Positions) (k : Text) (slot : ℕ)
    → contains slot (values (mapping_of m)) ≡ false
    → get_item k m ≡ some slot
    → true ≡ false
not_there m k slot free e = sym (lookup_contained m k slot e) ∙ free

set_item-IsGood :
    (serial : Text) (slot : ℕ) (m : Positions)
    → is_plausible_serial serial ≡ true
    → contains slot (values (mapping_of m)) ≡ false
    → contains slot tracked_slots ≡ true
    → IsGood m
    → IsGood (set_item serial slot m)
set_item-IsGood serial slot m plausible free tracked good = (
  set_item-IsDict serial slot m good.0,
  λ k s e. elim (Bool-cases (is_text k serial)) [
    | inl same ↦
        let here : some slot ≡ some s = rw (get_item-set_item k serial slot m, same) at e in
        let eq : slot ≡ s = cc in
        (rw ((is_text_iff k serial).0 same) plausible, rw (sym eq) tracked)
    | inr other ↦ good.1 k s (rw (get_item-set_item k serial slot m, other) at e)
  ],
  λ j k s e f. elim (Bool-cases (is_text j serial)) [
    | inl first ↦ elim (Bool-cases (is_text k serial)) [
      | inl second ↦ (is_text_iff j serial).0 first ∙ sym ((is_text_iff k serial).0 second)
      | inr other ↦
          let here : some slot ≡ some s = rw (get_item-set_item j serial slot m, first) at e in
          let eq : slot ≡ s = cc in
          let wrong =
            not_there m k slot free
              ((rw (get_item-set_item k serial slot m, other) at f) ∙ ap some (sym eq)) in
          cc
    ]
    | inr other ↦ elim (Bool-cases (is_text k serial)) [
      | inl second ↦
          let here : some slot ≡ some s = rw (get_item-set_item k serial slot m, second) at f in
          let eq : slot ≡ s = cc in
          let wrong =
            not_there m j slot free
              ((rw (get_item-set_item j serial slot m, other) at e) ∙ ap some (sym eq)) in
          cc
      | inr third ↦
          good.2 j k s (rw (get_item-set_item j serial slot m, other) at e)
            (rw (get_item-set_item k serial slot m, third) at f)
    ]
  ],
)

pub assign_serials-IsGood :
    (current : List (ℕ × Text)) (m : Positions)
    → ArePlausible current
    → IsGood m
    → IsGood (assign_serials current m)
assign_serials-IsGood [] m plausible good = good
assign_serials-IsGood ((p, serial) ∷ current) m plausible good =
    assign_serials-IsGood current _ plausible.1
      (elim (assign_serial-IsStep p serial m (get_item serial m) refl) [
        | inl same ↦ rw same good
        | inr (slot, eq, new, free, tracked) ↦
            rw eq (set_item-IsGood serial slot m plausible.0 free tracked good)
      ])

-- A pack that has a slot keeps it.
pub assign_serials-keeps :
    (current : List (ℕ × Text)) (m : Positions) (k : Text) (s : ℕ)
    → get_item k m ≡ some s
    → get_item k (assign_serials current m) ≡ some s
assign_serials-keeps [] m k s e = e
assign_serials-keeps ((p, serial) ∷ current) m k s e =
    assign_serials-keeps current _ k s
      (elim (assign_serial-IsStep p serial m (get_item serial m) refl) [
        | inl same ↦ rw same e
        | inr (slot, eq, new, free, tracked) ↦ rw eq (set_item-keeps serial k slot s m new e)
      ])

assign_serials-longer :
    (current : List (ℕ × Text)) (m : Positions)
    → (assign_serials current m ≡ m) ⊎ (length m < length (assign_serials current m))
assign_serials-longer [] m = inl refl
assign_serials-longer ((p, serial) ∷ current) m =
    let next = assign_serial p serial m (get_item serial m) in
    elim (assign_serial-IsStep p serial m (get_item serial m) refl) [
      | inl same ↦ rw same (assign_serials-longer current m)
      | inr (slot, eq, new, free, tracked) ↦
          let more : length next ≡ length m + 1 =
            ap (λ (q : Positions). length q) eq ∙ length-set_item serial slot m new in
          elim (assign_serials-longer current next) [
            | inl same ↦ inr (omega (arith, more, ap (λ (q : Positions). length q) same))
            | inr longer ↦ inr (omega (arith, more, longer))
          ]
    ]

-- A mapping that gets no entry is the same.
pub assign_serials-same :
    (current : List (ℕ × Text)) (m : Positions)
    → length (assign_serials current m) ≡ length m
    → assign_serials current m ≡ m
assign_serials-same current m h = elim (assign_serials-longer current m) [
  | inl same ↦ same
  | inr longer ↦ absurd (omega (arith, longer, h))
]
