-- ===== src/Battery/Stabilized.antt =====
-- `_stabilize_battery_payload_locked` from a payload to the values of its names.
use gro_bro.Prelude.{
  ℕ, ◌≡◌, refl, sym, inl, inr, Bool, true, false, not, ◌&&◌, Option, none, some, List, [], ◌∷◌,
  arith, ◌==◌, ==_iff, Bool-cases, Option-cases, if_splits, length, All,
}
use gro_bro.Battery.Slots.{
  contains, Dict, lookup, values, Manual, is_reserved, add_place, explicit_places, place_one,
  place_rest, stabilize_slots,
}
use gro_bro.Bytes.{Text}
use gro_bro.Battery.Payload.{
  is_empty, any_chosen, stays, manual_of, numbered, remapped, stabilize_battery_payload,
}
use gro_bro.Battery.Shortcut.{Within, expected_value-stays}
use gro_bro.Battery.Serials.{Payload, add_serial, serials_from_payload}
use gro_bro.Battery.Expected.{keys, ArePlaces, remap-expected_value}
use gro_bro.Battery.Stable.{Distinct, IsStable}
use gro_bro.Battery.Patterns.{IsSlot}
use gro_bro.Battery.Places.{place_one-known, place_one-fresh}
use gro_bro.Battery.Placed.{explicit_places-absent_key, AreChoices, stabilize_slots-ArePlaces}
use gro_bro.Cells.{Cell}
use gro_bro.Dicts.{get_item, IsDict}
use gro_bro.Battery.Remap.{expected_value}
use gro_bro.Battery.Keys.{logical_slot_from_key}

add_place-Within :
    (p : ℕ) (o : Option ℕ) (places : Dict) (ks : List ℕ)
    → contains p ks ≡ true
    → Within (keys places) ks
    → Within (keys (add_place p o places)) ks
add_place-Within p none places ks there h z e = h z e
add_place-Within p (some l) places ks there h z e = elim (Bool-cases (z == p)) [
  | inl same ↦ let eq : z ≡ p = (==_iff z p).0 same in rw eq there
  | inr other ↦ h z (rw other at e)
]

place_rest-Within :
    (use_stable_auto : Bool) (manual : Manual) (mapping current places : Dict) (ks : List ℕ)
    → Within (keys current) ks
    → Within (keys places) ks
    → Within (keys (place_rest use_stable_auto manual mapping current places)) ks
unfolding place_rest
place_rest-Within use_stable_auto manual mapping [] places ks c h = h
place_rest-Within use_stable_auto manual mapping ((p, t) ∷ current) places ks c h =
    let placed : Within (keys (place_one use_stable_auto manual mapping p t places)) ks =
      elim (Option-cases (lookup p places)) [
        | inr (l, known) ↦ rw (place_one-known use_stable_auto manual mapping p t l places known) h
        | inl new ↦
            rw (place_one-fresh use_stable_auto manual mapping p t places new)
              (add_place-Within p _ places ks (c p (ground arith)) h)
      ] in
    place_rest-Within use_stable_auto manual mapping current _ ks (λ z e. c z (ground arith)) placed

explicit_places-Within :
    (manual : Manual) (current : Dict)
    → Within (keys (explicit_places manual current)) (keys current)
explicit_places-Within manual current z e = elim (Bool-cases (contains z (keys current))) [
  | inl found ↦ found
  | inr gone ↦
      let absent : contains z (keys (explicit_places manual current)) ≡ false =
        explicit_places-absent_key manual current z gone in
      cc
]

-- Only reported packs have places.
pub stabilize_slots-Within :
    (use_stable_auto : Bool) (manual : Manual) (current mapping : Dict)
    → Within (keys (stabilize_slots use_stable_auto manual current mapping).1) (keys current)
unfolding stabilize_slots
stabilize_slots-Within use_stable_auto manual current mapping =
    place_rest-Within use_stable_auto manual _ current (explicit_places manual current)
      (keys current) (λ z e. e) (explicit_places-Within manual current)

module _ (Float : Type 0) (repr : Float → Text) where
  numbered-serials :
      (o2 o3 o4 : Option Text)
      → let current = numbered (
          add_serial Float repr 2 o2
            (add_serial Float repr 3 o3 (add_serial Float repr 4 o4 []))) in
        Distinct (keys current) × All IsSlot (keys current)
  numbered-serials none none none = ground arith
  numbered-serials none none (some c) = ground arith
  numbered-serials none (some b) none = ground arith
  numbered-serials none (some b) (some c) = ground arith
  numbered-serials (some a) none none = ground arith
  numbered-serials (some a) none (some c) = ground arith
  numbered-serials (some a) (some b) none = ground arith
  numbered-serials (some a) (some b) (some c) = ground arith

  pub tracked_serials :
      (payload : Payload Float repr)
      → let current = numbered (serials_from_payload Float repr payload) in
        Distinct (keys current) × All IsSlot (keys current)
  unfolding serials_from_payload
  tracked_serials payload = numbered-serials _ _ _

  -- The specification of the whole packet.
  abbrev pub packet_value :
      Bool → List (ℕ × Text) → Dict → Payload Float repr → Text → Option (Cell Float)
  packet_value use_stable_auto assignments mapping payload =
      let current = numbered (serials_from_payload Float repr payload) in
      let manual = manual_of assignments in
      expected_value (is_reserved manual) (stabilize_slots use_stable_auto manual current mapping).1
        current payload

  remapped-expected_value :
      (manual : Manual) (places current : Dict) (payload : Payload Float repr) (key : Text)
      → ArePlaces places
      → Within (keys places) (keys current)
      → IsDict payload
      → get_item key (remapped Float repr manual current places payload).0
        ≡ expected_value (is_reserved manual) places current payload key
  unfolding remapped
  remapped-expected_value manual places current payload key ok within h =
      if_splits {A = Payload Float repr × ℕ}
        (λ r. get_item key r.0 ≡ expected_value (is_reserved manual) places current payload key)
        (not (any_chosen manual) && (stays places && length places == length current))
        (λ e. sym (
          expected_value-stays manual places current payload ok within (ground arith) (ground arith)
            (ground arith) key))
        (λ e. remap-expected_value (is_reserved manual) places current ok payload h key)

  expected_value-empty :
      (use_stable_auto : Bool) (assignments : List (ℕ × Text)) (current mapping : Dict)
      (payload : Payload Float repr) (key : Text)
      → (is_empty current && is_empty assignments) ≡ true
      → expected_value
          (is_reserved (manual_of assignments))
          (stabilize_slots use_stable_auto (manual_of assignments) current mapping).1
          current
          payload
          key
        ≡ get_item key payload
  unfolding stabilize_slots explicit_places place_rest
  expected_value-empty use_stable_auto [] [] mapping payload key e =
      elim (Option-cases (logical_slot_from_key key)) [
        | inl plain ↦ rw plain refl
        | inr (l, of) ↦ rw of refl
      ]
  expected_value-empty use_stable_auto [] (x ∷ current) mapping payload key e = cc
  expected_value-empty use_stable_auto (a ∷ assignments) [] mapping payload key e = cc
  expected_value-empty use_stable_auto (a ∷ assignments) (x ∷ current) mapping payload key e = cc

  -- For manual choices for different slots, a mapping with different slots, all of them 2, 3 or 4, and a
  -- payload whose packs report different serial numbers, each name of the payload that is returned has
  -- the value that its specification says, whether the payload is rebuilt or returned early as it is: a
  -- name of no slot its own, a name of a slot with a pack the value of this pack, and any other none if
  -- its pack is elsewhere or the slot is reserved or reported, and else its own.
  pub stabilize_battery_payload-packet_value :
      (use_stable_auto : Bool) (assignments : List (ℕ × Text)) (mapping : Dict)
      (payload : Payload Float repr) (key : Text)
      → AreChoices (manual_of assignments)
      → IsStable mapping
      → Distinct (values (numbered (serials_from_payload Float repr payload)))
      → IsDict payload
      → get_item key
          (stabilize_battery_payload Float repr use_stable_auto assignments mapping payload).1.0
        ≡ packet_value use_stable_auto assignments mapping payload key
  unfolding stabilize_battery_payload
  stabilize_battery_payload-packet_value use_stable_auto assignments mapping payload key m st d h =
      let current = numbered (serials_from_payload Float repr payload) in
      let manual = manual_of assignments in
      let tracked = tracked_serials payload in
      if_splits {A = Dict × (Payload Float repr × ℕ)}
        (λ r. get_item key r.1.0 ≡ packet_value use_stable_auto assignments mapping payload key)
        (is_empty current && is_empty assignments)
        (λ e. sym (expected_value-empty use_stable_auto assignments current mapping payload key e))
        (λ e.
          remapped-expected_value manual (stabilize_slots use_stable_auto manual current mapping).1
            current payload key
            (stabilize_slots-ArePlaces use_stable_auto manual current mapping m
              (tracked.0, d, tracked.1) st)
            (stabilize_slots-Within use_stable_auto manual current mapping) h)
