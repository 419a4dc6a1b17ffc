-- ===== src/Battery/Remap.antt =====
-- `remap` of a payload against a specification that says of each name alone what its value is.
use gro_bro.Prelude.{
  ℕ, ◌≡◌, refl, sym, ap, ◌∙◌, inl, inr, Bool, false, ◌||◌, Option, none, some, [], ◌∷◌, ◌==◌,
  if◌then◌else◌, Bool-cases, Option-cases,
}
use gro_bro.Bytes.{Text}
use gro_bro.Battery.Slots.{Dict}
use gro_bro.Dicts.{is_text_iff, TextDict, get_item, set_item, IsDict, get_item-set_item}
use gro_bro.Battery.Moves.{◌orelse◌}
use gro_bro.Battery.Keys.{logical_slot_from_key, remap_key}
use gro_bro.Battery.Payload.{has_key, plain_items}
use gro_bro.Family.{is_text}

-- The pack of a logical slot.
abbrev pub owner : ℕ → Dict → Option ℕ
owner l [] = none
owner l ((p, m) ∷ places) = if l == m then some p else owner l places

-- A name of no slot keeps its value; a slot that has a pack shows the values of this pack; a slot
-- without one shows nothing if its own pack is elsewhere, or it is reserved or reported; and any other
-- shows its own values.
abbrev pub slot_value {ℓ} :
    {V : Type ℓ} → (ℕ → Bool) → Dict → Dict → TextDict V → Text → ℕ → Option ℕ → Option V
slot_value reserved places current payload key l (some p) = get_item (remap_key key p) payload
slot_value reserved places current payload key l none =
    if has_key l places || (reserved l || has_key l current) then none else get_item key payload

abbrev pub value_of {ℓ} :
    {V : Type ℓ} → (ℕ → Bool) → Dict → Dict → TextDict V → Text → Option ℕ → Option V
value_of reserved places current payload key none = get_item key payload
value_of reserved places current payload key (some l) =
    slot_value reserved places current payload key l (owner l places)

abbrev pub expected_value {ℓ} :
    {V : Type ℓ} → (ℕ → Bool) → Dict → Dict → TextDict V → Text → Option V
expected_value reserved places current payload key =
    value_of reserved places current payload key (logical_slot_from_key key)

pub slots_differ :
    (s t : Text) (o p : Option ℕ)
    → logical_slot_from_key s ≡ o
    → logical_slot_from_key t ≡ p
    → ¬ (o ≡ p)
    → is_text s t ≡ false
slots_differ s t o p e f ne = elim (Bool-cases (is_text s t)) [
  | inr other ↦ other
  | inl same ↦ absurd (ne (sym e ∙ ap logical_slot_from_key ((is_text_iff s t).0 same) ∙ f))
]

pub plain_items-slot {ℓ} :
    {V : Type ℓ} (key : Text) (p : ℕ) (payload d : TextDict V)
    → logical_slot_from_key key ≡ some p
    → get_item key (plain_items payload d) ≡ get_item key d
plain_items-slot key p [] d of = refl
plain_items-slot key p ((key', v) ∷ payload) d of =
    elim (Option-cases (logical_slot_from_key key')) [
      | inr (p', of') ↦ rw of' (plain_items-slot key p payload d of)
      | inl plain ↦
          rw
            (
              plain,
              plain_items-slot key p payload (set_item key' v d) of,
              get_item-set_item key key' v d,
              slots_differ key key' (some p) none of plain (λ e. cc),
            )
            refl
    ]

pub plain_items-plain {ℓ} :
    {V : Type ℓ} (key : Text) (payload d : TextDict V)
    → logical_slot_from_key key ≡ none
    → IsDict payload
    → get_item key (plain_items payload d) ≡ (get_item key payload orelse get_item key d)
plain_items-plain key [] d of h = refl
plain_items-plain key ((key', v) ∷ payload) d of h =
    elim (Option-cases (logical_slot_from_key key')) [
      | inr (p', of') ↦
          rw (of', slots_differ key key' none (some p') of of' (λ e. cc))
            (plain_items-plain key payload d of h.1)
      | inl plain ↦ elim (Bool-cases (is_text key key')) [
        | inr other ↦
            rw
              (
                plain,
                plain_items-plain key payload (set_item key' v d) of h.1,
                get_item-set_item key key' v d,
                other,
              )
              refl
        | inl same ↦
            let eq : key ≡ key' = (is_text_iff key key').0 same in
            let fresh : get_item key payload ≡ none = rw eq h.0 in
            rw
              (
                plain,
                plain_items-plain key payload (set_item key' v d) of h.1,
                get_item-set_item key key' v d,
                same,
                fresh,
              )
              refl
      ]
    ]
