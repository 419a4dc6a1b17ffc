-- ===== src/Publish/Packs.antt =====
-- Every pack that has a place is published there, whatever number of slots is shown otherwise.
use gro_bro.Prelude.{
  ℕ, ◌≤◌, ◌≡◌, refl, sym, ap, subst, ◌∙◌, inl, inr, Bool, true, false, not, ◌&&◌, Option, some,
  List, [], ◌∷◌, arith, ltb, ◌==◌, Option-cases, if_keeps, if_splits, if_none, length,
}
use gro_bro.Dicts.{get_item, IsDict}
use gro_bro.Battery.Slots.{contains, Dict, lookup, values, Manual, is_reserved, stabilize_slots}
use gro_bro.Battery.Payload.{
  is_some, is_empty, max_or_one, any_chosen, stays, manual_of, numbered, remapped,
  stabilize_battery_payload,
}
use gro_bro.Battery.Expected.{keys, orelse-none, lookup-keys, owner-lookup, owner-values, ArePlaces}
use gro_bro.Bytes.{Text}
use gro_bro.Battery.Remap.{owner}
use gro_bro.Battery.Keys.{logical_slot_from_key, remap_key}
use gro_bro.Battery.Moves.{lookup-AreSlots, lookup-values, lookup-injective}
use gro_bro.Battery.Serials.{Payload, serials_from_payload}
use gro_bro.Register.{ℤ}
use gro_bro.Publish.Rules.{Rules}
use gro_bro.Publish.Combined.{names_of, get_item-combine_serials}
use gro_bro.Family.{has_text}
use gro_bro.Publish.Packet.{
  bat_serial_groups, effective_max, resolve_max_bat, prepare_battery_payload, prepare_with,
  prepared_state,
}
use gro_bro.Publish.Prepare.{get_bat_number, is_hidden, prepared_value, prepare_payload}
use gro_bro.Battery.Placed.{AreReported, AreChoices, stabilize_slots-ArePlaces}
use gro_bro.Battery.Stable.{Distinct, IsStable}
use gro_bro.Publish.Shown.{mapped, get_bat_number-logical_slot_from_key, prepare_items-lookup}
use gro_bro.Battery.Stabilized.{
  stabilize_slots-Within, tracked_serials, stabilize_battery_payload-packet_value,
}
use gro_bro.Battery.Patterns.{IsSlot}
use gro_bro.Battery.Renames.{logical_slot_from_key-remap_key, remap_key-remap_key}
use gro_bro.Battery.Unique.{remap-IsDict}

contains-max_or_one : (l : ℕ) (xs : List ℕ) → contains l xs ≡ true → l ≤ max_or_one xs
contains-max_or_one l [] h = cc
contains-max_or_one l (x ∷ []) h = ground arith
contains-max_or_one l (x ∷ y ∷ xs) h = ground (arith, contains-max_or_one l (y ∷ xs))

lookup-owner :
    (places : Dict) (p l : ℕ)
    → ArePlaces places
    → lookup p places ≡ some l
    → owner l places ≡ some p
lookup-owner places p l ok there = elim (Option-cases (owner l places)) [
  | inl no_owner ↦
      let free = owner-values places l no_owner in let used = lookup-values places p l there in cc
  | inr (q, own) ↦
      let eq : q ≡ p =
        lookup-injective places q p l ok.1 (owner-lookup places l q ok.0 own) there in
      rw own (ap some eq)
]

contains-keys-nonempty : (p : ℕ) (d : Dict) → contains p (keys d) ≡ true → is_empty d ≡ false
contains-keys-nonempty p [] h = cc
contains-keys-nonempty p (e ∷ d) h = refl

effective_max_le :
    (resolved stable l : ℕ) → l ≤ stable → ltb (effective_max resolved stable) l ≡ false
effective_max_le resolved stable l h = ground arith

module _ (Float : Type 0) (repr : Float → Text) where
  module _ (is_absent : Float → Bool) (rounded integral : Float → Option ℤ) (rules : Rules)
      (max_bat : Option ℤ) where
    prepare_with-shown :
        (shown : Payload Float repr × ℕ) (key : Text) (l : ℕ)
        → IsDict shown.0
        → get_bat_number key ≡ some l
        → l ≤ shown.1
        → get_item key (prepare_with Float repr integral is_absent rounded rules max_bat shown)
          ≡ mapped
              (prepared_value Float repr is_absent rounded integral rules key)
              (get_item key shown.0)
    unfolding prepare_payload
    prepare_with-shown (pl, stable) key l h n le =
        let most = effective_max (resolve_max_bat Float repr integral max_bat pl) stable in
        let visible : is_hidden most (get_bat_number key) ≡ false =
          ap (is_hidden most) n
          ∙ effective_max_le (resolve_max_bat Float repr integral max_bat pl) stable l le in
        prepare_items-lookup Float repr is_absent rounded integral rules most pl [] key h
        ∙ if_none (get_item key []) visible
        ∙ orelse-none (
            mapped (prepared_value Float repr is_absent rounded integral rules key)
              (get_item key pl))

  module _ (use_stable_auto : Bool) (assignments : List (ℕ × Text)) (mapping : Dict)
      (payload : Payload Float repr) where
    abbrev current_of : Dict
    current_of = numbered (serials_from_payload Float repr payload)

    abbrev pub places_of : Dict
    places_of = (stabilize_slots use_stable_auto (manual_of assignments) current_of mapping).1

    abbrev result_of : Payload Float repr × ℕ
    result_of = (stabilize_battery_payload Float repr use_stable_auto assignments mapping payload).1

    remapped-IsDict :
        (manual : Manual) (places current : Dict)
        → IsDict payload
        → IsDict (remapped Float repr manual current places payload).0
    unfolding remapped
    remapped-IsDict manual places current h =
        if_keeps {A = Payload Float repr × ℕ} (λ r. IsDict r.0)
          (not (any_chosen manual) && (stays places && length places == length current)) h
          (remap-IsDict (is_reserved manual) places current payload)

    remapped-max :
        (manual : Manual) (places current : Dict)
        → (remapped Float repr manual current places payload).1 ≡ max_or_one (values places)
    unfolding remapped
    remapped-max manual places current =
        if_keeps {A = Payload Float repr × ℕ} (λ r. r.1 ≡ max_or_one (values places))
          (not (any_chosen manual) && (stays places && length places == length current)) refl refl

    result-IsDict : IsDict payload → IsDict result_of.0
    unfolding stabilize_battery_payload
    result-IsDict h =
        if_keeps {A = Dict × (Payload Float repr × ℕ)} (λ r. IsDict r.1.0)
          (is_empty current_of && is_empty assignments) h
          (remapped-IsDict (manual_of assignments) places_of current_of h)

    result-max : is_empty current_of ≡ false → result_of.1 ≡ max_or_one (values places_of)
    unfolding stabilize_battery_payload
    result-max reported =
        if_splits {A = Dict × (Payload Float repr × ℕ)} (λ r. r.1.1 ≡ max_or_one (values places_of))
          (is_empty current_of && is_empty assignments) (λ e. absurd (ground arith))
          (λ e. remapped-max (manual_of assignments) places_of current_of)

    placed_reported : (p l : ℕ) → lookup p places_of ≡ some l → is_empty current_of ≡ false
    placed_reported p l there = contains-keys-nonempty p current_of (
        stabilize_slots-Within use_stable_auto (manual_of assignments) current_of mapping p
          (lookup-keys places_of p ∙ ap is_some there))

    reported_serials : Distinct (values current_of) → AreReported current_of
    reported_serials d =
        let tracked = tracked_serials Float repr payload in (tracked.0, d, tracked.1)

    taken :
        (integral : Float → Option ℤ)
        → (not use_stable_auto && not (any_chosen (manual_of assignments))) ≡ false
        → prepare_battery_payload Float repr integral use_stable_auto assignments mapping payload
          ≡ stabilize_battery_payload Float repr use_stable_auto assignments mapping payload
    unfolding prepare_battery_payload
    taken integral used = if_none (mapping, (payload, 1)) used

    pack_value :
        (key : Text) (p l : ℕ)
        → ArePlaces places_of
        → AreChoices (manual_of assignments)
        → IsStable mapping
        → Distinct (values current_of)
        → IsDict payload
        → logical_slot_from_key key ≡ some p
        → logical_slot_from_key (remap_key key l) ≡ some l
        → lookup p places_of ≡ some l
        → get_item (remap_key key l) result_of.0 ≡ get_item key payload
    pack_value key p l ok m st d h of slot there =
        stabilize_battery_payload-packet_value Float repr use_stable_auto assignments mapping
          payload (remap_key key l) m st d h
        ∙ rw (slot, lookup-owner places_of p l ok there)
            (ap (λ k. get_item k payload)
              (remap_key-remap_key key p l of (lookup-AreSlots places_of p l ok.3 there)))

    module _ (is_absent : Float → Bool) (rounded integral : Float → Option ℤ) (rules : Rules)
        (is_noah : Bool) (max_bat : Option ℤ) where
      abbrev prepared : Payload Float repr
      prepared =
          prepared_state Float repr integral is_absent rounded rules is_noah max_bat use_stable_auto
            assignments mapping payload

      -- A device has manual choices for different slots, a mapping with different slots, all of them 2, 3
      -- or 4, and a payload whose packs report different serial numbers, with automatic slots or a choice
      -- that is not automatic. Whatever number of slots is configured or reported, each value of a pack
      -- that is placed is published under the name of the pack's logical slot, as the register's rules
      -- prepare it, if that is not a name of a serial number or of a fragment of one
      -- (`bat3_serial`, `bat3_ser_part_1`): these are joined or left out.
      pub prepared_state-pack :
          (key : Text) (p l : ℕ)
          → AreChoices (manual_of assignments)
          → IsStable mapping
          → Distinct (values current_of)
          → IsDict payload
          → (not use_stable_auto && not (any_chosen (manual_of assignments))) ≡ false
          → logical_slot_from_key key ≡ some p
          → lookup p places_of ≡ some l
          → has_text (remap_key key l) (names_of bat_serial_groups) ≡ false
          → get_item (remap_key key l) prepared
            ≡ mapped
                (prepared_value Float repr is_absent rounded integral rules (remap_key key l))
                (get_item key payload)
      unfolding prepared_state
      prepared_state-pack key p l m st d h used of there other =
          let ok =
            stabilize_slots-ArePlaces use_stable_auto (manual_of assignments) current_of mapping m
              (reported_serials d) st in
          let s : IsSlot l = lookup-AreSlots places_of p l ok.3 there in
          let slot = logical_slot_from_key-remap_key key p l of s in
          let below : l ≤ result_of.1 =
            subst (λ n. l ≤ n) (sym (result-max (placed_reported p l there)))
              (contains-max_or_one l (values places_of) (lookup-values places_of p l there)) in
          get_item-combine_serials Float repr (remap_key key l) rules is_noah _ other
          ∙ ap
              (λ r.
                get_item (remap_key key l)
                  (prepare_with Float repr integral is_absent rounded rules max_bat r.1))
              (taken integral used)
          ∙ prepare_with-shown is_absent rounded integral rules max_bat result_of (remap_key key l)
              l (result-IsDict h) (get_bat_number-logical_slot_from_key (remap_key key l) l slot)
              below
          ∙ ap
              (mapped
                (prepared_value Float repr is_absent rounded integral rules (remap_key key l)))
              (pack_value key p l ok m st d h of slot there)
