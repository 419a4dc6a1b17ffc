-- ===== src/Battery/Aside.antt =====
-- What a step of the second loop of `remap` leaves as it is.
use gro_bro.Prelude.{
  ℕ, ◌≡◌, refl, sym, ap, subst, ◌∙◌, inl, inr, Bool, true, false, Option, none, some, [], ◌∷◌,
  arith, Bool-cases, Option-cases, if_keeps, if_splits,
}
use gro_bro.Battery.Slots.{contains, Dict, lookup, values}
use gro_bro.Battery.Moves.{◌orelse◌, AreSlots, lookup-AreSlots, lookup-values}
use gro_bro.Bytes.{Text}
use gro_bro.Battery.Keys.{logical_slot_from_key, remap_key}
use gro_bro.Dicts.{is_text_iff, TextDict, get_item, IsDict, get_item-set_item}
use gro_bro.Battery.Payload.{is_skipped, slot_items, move_item, move_items}
use gro_bro.Family.{is_text}
use gro_bro.Battery.Renames.{logical_slot_from_key-remap_key, remap_key-own}
use gro_bro.Battery.Remap.{slots_differ}

module _ (reserved : ℕ → Bool) (places current : Dict) (tracked : AreSlots places) where
  -- A step of the second loop sets a name of the slot to which it moves.
  move_item-away {ℓ} :
      {V : Type ℓ} (key : Text) (o : Option ℕ) (key' : Text) (v : V) (p' : ℕ) (d : TextDict V)
      → logical_slot_from_key key ≡ o
      → logical_slot_from_key key' ≡ some p'
      → ((l : ℕ) → o ≡ some l → contains l (values places) ≡ false)
      → ((l : ℕ)
          → o ≡ some l
          → (lookup p' places ≡ none)
          → is_skipped reserved places current p' ≡ false
          → ¬ (l ≡ p'))
      → get_item key (move_item reserved places current key' v p' d) ≡ get_item key d
  move_item-away key o key' v p' d e of' free ne = elim (Option-cases (lookup p' places)) [
    | inr (l', there') ↦
        rw
          (
            there',
            get_item-set_item key (remap_key key' l') v d,
            slots_differ key (remap_key key' l') o (some l') e
                (logical_slot_from_key-remap_key key' p' l' of'
                  (lookup-AreSlots places p' l' tracked there'))
                (λ eq.
                  let used : contains l' (values places) ≡ true =
                    lookup-values places p' l' there' in
                  let unused : contains l' (values places) ≡ false = free l' eq in cc),
          )
          refl
    | inl gone ↦
        if_splits (λ d'. get_item key d' ≡ get_item key d) (is_skipped reserved places current p')
          (λ h. refl)
          (λ h.
            rw
              (
                gone,
                remap_key-own key' p' of',
                get_item-set_item key key' v d,
                slots_differ key key' o (some p') e of' (λ eq. ne p' eq gone h refl),
              )
              refl)
  ]

  -- Where nothing moves to, the second loop sets nothing.
  pub move_items-away {ℓ} :
      {V : Type ℓ} (key : Text) (o : Option ℕ) (payload d : TextDict V)
      → logical_slot_from_key key ≡ o
      → ((l : ℕ) → o ≡ some l → contains l (values places) ≡ false)
      → ((l : ℕ)
          → o ≡ some l
          → lookup l places ≡ none
          → is_skipped reserved places current l ≡ true)
      → get_item key (move_items reserved places current (slot_items payload) d) ≡ get_item key d
  move_items-away key o [] d e free skipped = refl
  move_items-away key o ((key', v) ∷ payload) d e free skipped =
      elim (Option-cases (logical_slot_from_key key')) [
        | inl plain ↦ rw plain (move_items-away key o payload d e free skipped)
        | inr (p', of') ↦
            rw
              (
                of',
                move_items-away key o payload (move_item reserved places current key' v p' d) e free
                    skipped,
              )
              (move_item-away key o key' v p' d e of' free (λ l eq gone kept same.
                let skip : is_skipped reserved places current p' ≡ true =
                  skipped p' (rw same at eq) gone in
                cc))
      ]

  module _ (key : Text) (l : ℕ) (of : logical_slot_from_key key ≡ some l)
      (gone : lookup l places ≡ none) (free : contains l (values places) ≡ false)
      (kept : is_skipped reserved places current l ≡ false) where
    move_item-ne {ℓ} :
        {V : Type ℓ} (key' : Text) (v : V) (p' : ℕ) (d : TextDict V)
        → logical_slot_from_key key' ≡ some p'
        → is_text key key' ≡ false
        → get_item key (move_item reserved places current key' v p' d) ≡ get_item key d
    move_item-ne key' v p' d of' other = elim (Option-cases (lookup p' places)) [
      | inr (l', there') ↦
          rw
            (
              there',
              get_item-set_item key (remap_key key' l') v d,
              slots_differ key (remap_key key' l') (some l) (some l') of
                  (logical_slot_from_key-remap_key key' p' l' of'
                    (lookup-AreSlots places p' l' tracked there'))
                  (λ eq.
                    let same : l ≡ l' = ground arith in
                    let used : contains l (values places) ≡ true =
                      lookup-values places p' l (rw same there') in
                    cc),
            )
            refl
      | inl away ↦
          if_keeps (λ d'. get_item key d' ≡ get_item key d) (is_skipped reserved places current p')
            refl (rw (away, remap_key-own key' p' of', get_item-set_item key key' v d, other) refl)
    ]

    move_item-own {ℓ} :
        {V : Type ℓ} (v : V) (d : TextDict V)
        → get_item key (move_item reserved places current key v l d) ≡ some v
    move_item-own v d =
        rw
          (
            kept,
            gone,
            remap_key-own key l of,
            get_item-set_item key key v d,
            (is_text_iff key key).1 refl,
          )
          refl

    -- A slot that is not identified, and that nothing hides, keeps its own values.
    pub move_items-own {ℓ} :
        {V : Type ℓ} (payload d : TextDict V)
        → IsDict payload
        → get_item key (move_items reserved places current (slot_items payload) d)
          ≡ (get_item key payload orelse get_item key d)
    move_items-own [] d h = refl
    move_items-own ((key', v) ∷ payload) d h = elim (Option-cases (logical_slot_from_key key')) [
      | inl plain ↦
          rw (plain, slots_differ key key' (some l) none of plain (λ e. cc))
            (move_items-own payload d h.1)
      | inr (p', of') ↦ elim (Bool-cases (is_text key key')) [
        | inr other ↦
            rw
              (
                of',
                other,
                move_items-own payload (move_item reserved places current key' v p' d) h.1,
                move_item-ne key' v p' d of' other,
              )
              refl
        | inl same ↦
            let eq : key ≡ key' = (is_text_iff key key').0 same in
            let fresh : get_item key payload ≡ none = rw eq h.0 in
            let slots : some l ≡ some p' = sym of ∙ ap logical_slot_from_key eq ∙ of' in
            let ls : l ≡ p' = ground arith in
            let own : get_item key (move_item reserved places current key' v p' d) ≡ some v =
              subst (λ q. get_item key (move_item reserved places current key' v q d) ≡ some v) ls
                (subst (λ k. get_item key (move_item reserved places current k v l d) ≡ some v) eq
                  (move_item-own v d)) in
            rw
              (
                of',
                same,
                move_items-own payload (move_item reserved places current key' v p' d) h.1,
                fresh,
                own,
              )
              refl
      ]
    ]
