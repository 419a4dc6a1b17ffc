-- ===== src/Battery/Moves.antt =====
-- Where the values of a payload are behind `remap`: those of an identified pack under its logical slot,
-- and nothing else there.
use gro_bro.Prelude.{
  ℕ, ◌≡◌, refl, sym, ap, subst, ◌∙◌, inl, inr, Bool, true, false, Option, none, some, [], ◌∷◌,
  arith, ◌==◌, Bool-cases, Option-cases, if_keeps, All,
}
use gro_bro.Battery.Slots.{contains, Dict, lookup, values}
use gro_bro.Battery.Stable.{Distinct}
use gro_bro.Battery.Patterns.{IsSlot}
use gro_bro.Battery.Renames.{logical_slot_from_key-remap_key, remap_key-own, remap_key-remap_key}
use gro_bro.Bytes.{Text}
use gro_bro.Battery.Keys.{logical_slot_from_key, remap_key}
use gro_bro.Dicts.{is_text_iff, TextDict, get_item, IsDict, get_item-set_item}
use gro_bro.Family.{is_text}
use gro_bro.Battery.Payload.{is_skipped, slot_items, move_item, move_items}

-- `key`'s own value, or what stood there before.
infixr 30 ◌orelse◌
abbrev pub ◌orelse◌ {ℓ} : {A : Type ℓ} → Option A → Option A → Option A
(some a) orelse o = some a
none orelse o = o

abbrev pub AreSlots : Dict → Type 0
AreSlots places = All IsSlot (values places)

pub lookup-AreSlots :
    (places : Dict) (p l : ℕ) → AreSlots places → lookup p places ≡ some l → IsSlot l
lookup-AreSlots [] p l h e = cc
lookup-AreSlots ((q, m) ∷ places) p l h e = elim (Bool-cases (p == q)) [
  | inl same ↦ let eq : m ≡ l = ground arith in subst IsSlot eq h.0
  | inr other ↦ lookup-AreSlots places p l h.1 (ground arith)
]

pub lookup-values :
    (places : Dict) (p l : ℕ) → lookup p places ≡ some l → contains l (values places) ≡ true
lookup-values [] p l e = cc
lookup-values ((q, m) ∷ places) p l e = ground (arith, lookup-values places p l)

-- In different slots stand different packs.
pub lookup-injective :
    (places : Dict) (p q l : ℕ)
    → Distinct (values places)
    → lookup p places ≡ some l
    → lookup q places ≡ some l
    → p ≡ q
lookup-injective [] p q l d e f = cc
lookup-injective ((r, m) ∷ places) p q l d e f =
    ground
      (arith, lookup-injective places p q l d.1, lookup-values places p l, lookup-values places q l)

module _ (reserved : ℕ → Bool) (places current : Dict) (different : Distinct (values places))
    (tracked : AreSlots places) where
  module _ (key : Text) (p l : ℕ) (of : logical_slot_from_key key ≡ some p)
      (there : lookup p places ≡ some l) where
    -- The values of two names come under one only if the names are one.
    target-ne :
        (key' : Text) (p' l' : ℕ)
        → logical_slot_from_key key' ≡ some p'
        → lookup p' places ≡ some l'
        → is_text key key' ≡ false
        → is_text (remap_key key l) (remap_key key' l') ≡ false
    target-ne key' p' l' of' there' other =
        elim (Bool-cases (is_text (remap_key key l) (remap_key key' l'))) [
          | inr no_match ↦ no_match
          | inl same ↦
              let eq : remap_key key l ≡ remap_key key' l' = (is_text_iff _ _).0 same in
              let s : IsSlot l = lookup-AreSlots places p l tracked there in
              let s' : IsSlot l' = lookup-AreSlots places p' l' tracked there' in
              let slots : some l ≡ some l' =
                sym (logical_slot_from_key-remap_key key p l of s)
                ∙ ap logical_slot_from_key eq
                ∙ logical_slot_from_key-remap_key key' p' l' of' s' in
              let ls : l ≡ l' = ground arith in
              let ps : p ≡ p' = lookup-injective places p p' l different there (rw ls there') in
              let keys : key ≡ key' =
                sym (remap_key-remap_key key p l of s)
                ∙ ap (λ k. remap_key k p) eq
                ∙ ap (remap_key (remap_key key' l')) ps
                ∙ remap_key-remap_key key' p' l' of' s' in
              let again : is_text key key' ≡ true = (is_text_iff key key').1 keys in cc
        ]

    free-ne :
        (key' : Text) (p' : ℕ)
        → logical_slot_from_key key' ≡ some p'
        → contains p' (values places) ≡ false
        → is_text (remap_key key l) key' ≡ false
    free-ne key' p' of' free = elim (Bool-cases (is_text (remap_key key l) key')) [
      | inr no_match ↦ no_match
      | inl same ↦
          let eq : remap_key key l ≡ key' = (is_text_iff _ _).0 same in
          let slots : some l ≡ some p' =
            sym (
              logical_slot_from_key-remap_key key p l of (lookup-AreSlots places p l tracked there))
            ∙ ap logical_slot_from_key eq
            ∙ of' in
          let ls : l ≡ p' = ground arith in
          let used : contains p' (values places) ≡ true =
            lookup-values places p p' (rw ls at there) in
          cc
    ]

    step_self {ℓ} :
        {V : Type ℓ} (v : V) (d : TextDict V)
        → get_item (remap_key key l) (move_item reserved places current key v p d) ≡ some v
    step_self v d = rw (
      there,
      get_item-set_item (remap_key key l) (remap_key key l) v d,
      (is_text_iff (remap_key key l) (remap_key key l)).1 refl,
    )

    step_other {ℓ} :
        {V : Type ℓ} (key' : Text) (v : V) (p' : ℕ) (d : TextDict V)
        → logical_slot_from_key key' ≡ some p'
        → is_text key key' ≡ false
        → get_item (remap_key key l) (move_item reserved places current key' v p' d)
          ≡ get_item (remap_key key l) d
    step_other key' v p' d of' other = elim (Option-cases (lookup p' places)) [
      | inr (l', there') ↦ rw (
        there',
        get_item-set_item (remap_key key l) (remap_key key' l') v d,
        target-ne key' p' l' of' there' other,
      )
      | inl gone ↦ elim (Bool-cases (contains p' (values places))) [
        | inl used ↦ rw (gone, used)
        | inr free ↦
            if_keeps (λ d'. get_item (remap_key key l) d' ≡ get_item (remap_key key l) d)
              (is_skipped reserved places current p') refl
              (rw
                (
                  gone,
                  remap_key-own key' p' of',
                  get_item-set_item (remap_key key l) key' v d,
                  free-ne key' p' of' free,
                )
                refl)
      ]
    ]

    step_same {ℓ} :
        {V : Type ℓ} (key' : Text) (v : V) (p' : ℕ) (d : TextDict V)
        → logical_slot_from_key key' ≡ some p'
        → key ≡ key'
        → get_item (remap_key key l) (move_item reserved places current key' v p' d) ≡ some v
    step_same key' v p' d of' eq =
        let slots : some p ≡ some p' = sym of ∙ ap logical_slot_from_key eq ∙ of' in
        let ps : p ≡ p' = ground arith in
        subst
          (λ q. get_item (remap_key key l) (move_item reserved places current key' v q d) ≡ some v)
          ps
          (subst
            (λ k. get_item (remap_key key l) (move_item reserved places current k v p d) ≡ some v)
            eq (step_self v d))

    not_plain : (key' : Text) → logical_slot_from_key key' ≡ none → is_text key key' ≡ false
    not_plain key' plain = elim (Bool-cases (is_text key key')) [
      | inr no_match ↦ no_match
      | inl same ↦
          let none_some : none ≡ some p =
            sym plain ∙ ap logical_slot_from_key (sym ((is_text_iff key key').0 same)) ∙ of in
          cc
    ]

    -- The second loop sets the value of the name exactly to the value of `key`.
    pub move_items-lookup {ℓ} :
        {V : Type ℓ} (payload d : TextDict V)
        → IsDict payload
        → get_item (remap_key key l) (move_items reserved places current (slot_items payload) d)
          ≡ (get_item key payload orelse get_item (remap_key key l) d)
    move_items-lookup [] d h = refl
    move_items-lookup ((key', v) ∷ payload) d h = elim (Option-cases (logical_slot_from_key key')) [
      | inl plain ↦ rw (plain, not_plain key' plain) (move_items-lookup payload d h.1)
      | inr (p', of') ↦ elim (Bool-cases (is_text key key')) [
        | inr other ↦
            rw
              (
                of',
                other,
                move_items-lookup payload (move_item reserved places current key' v p' d) h.1,
                step_other key' v p' d of' other,
              )
              refl
        | inl same ↦
            let eq : key ≡ key' = (is_text_iff key key').0 same in
            let fresh : get_item key payload ≡ none = rw eq h.0 in
            rw
              (
                of',
                same,
                move_items-lookup payload (move_item reserved places current key' v p' d) h.1,
                fresh,
                step_same key' v p' d of' eq,
              )
              refl
      ]
    ]
