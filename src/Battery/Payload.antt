-- ===== src/Battery/Payload.antt =====
-- `_stabilize_battery_payload_locked` of grobro/ha/battery_position.py as a whole, for the case in which
-- the files were read: the serial numbers of a payload, their logical slots, and the payload in which
-- each slot's values stand under the names of the logical one.
use gro_bro.Prelude.{
  ℕ, suc, ◌+◌, ◌*◌, max, Bool, true, false, not, ◌&&◌, ◌||◌, Option, none, some, List, [], ◌∷◌,
  ◌==◌, if◌then◌else◌, length,
}
use gro_bro.Battery.Slots.{
  contains, Dict, lookup, values, Manual, is_chosen, is_reserved, stabilize_slots, Choice,
  automatic, empty, pack,
}
use gro_bro.Dicts.{codes, TextDict, set_item}
use gro_bro.Bytes.{Text}
use gro_bro.Battery.Serials.{Payload, serials_from_payload}
use gro_bro.Battery.Keys.{logical_slot_from_key, remap_key}
use gro_bro.Family.{is_text}

abbrev pub is_some {ℓ} : {A : Type ℓ} → Option A → Bool
is_some none = false
is_some (some a) = true

abbrev pub is_empty {ℓ} : {A : Type ℓ} → List A → Bool
is_empty [] = true
is_empty (x ∷ xs) = false

abbrev pub has_key : ℕ → Dict → Bool
has_key p places = is_some (lookup p places)

abbrev pub or_own : ℕ → Option ℕ → ℕ
or_own p none = p
or_own p (some l) = l

-- An unidentified slot that is used, reserved or reported.
abbrev pub is_skipped : (ℕ → Bool) → Dict → Dict → ℕ → Bool
is_skipped reserved places current p =
    not (has_key p places) && (contains p (values places) || (reserved p || has_key p current))

module _ {ℓ} {V : Type ℓ} where
  -- The first loop: what is of no slot, and the list of the rest.
  abbrev pub keep_plain : Option ℕ → Text → V → TextDict V → TextDict V
  keep_plain none key value remapped = set_item key value remapped
  keep_plain (some slot) key value remapped = remapped

  abbrev pub plain_items : TextDict V → TextDict V → TextDict V
  plain_items [] remapped = remapped
  plain_items ((key, value) ∷ payload) remapped =
      plain_items payload (keep_plain (logical_slot_from_key key) key value remapped)

  abbrev pub add_slot_item : Option ℕ → Text → V → List (Text × (V × ℕ)) → List (Text × (V × ℕ))
  add_slot_item none key value items = items
  add_slot_item (some slot) key value items = (key, (value, slot)) ∷ items

  abbrev pub slot_items : TextDict V → List (Text × (V × ℕ))
  slot_items [] = []
  slot_items ((key, value) ∷ payload) =
      add_slot_item (logical_slot_from_key key) key value (slot_items payload)

  module _ (reserved : ℕ → Bool) (places current : Dict) where
    abbrev pub move_item : Text → V → ℕ → TextDict V → TextDict V
    move_item key value p remapped =
        if is_skipped reserved places current p
        then remapped
        else set_item (remap_key key (or_own p (lookup p places))) value remapped

    -- The second loop.
    abbrev pub move_items : List (Text × (V × ℕ)) → TextDict V → TextDict V
    move_items [] remapped = remapped
    move_items ((key, (value, p)) ∷ items) remapped =
        move_items items (move_item key value p remapped)

    unfoldable pub remap : TextDict V → TextDict V
    remap payload = move_items (slot_items payload) (plain_items payload [])

-- `max(values, default=1)`
abbrev pub max_or_one : List ℕ → ℕ
max_or_one [] = 1
max_or_one (x ∷ []) = x
max_or_one (x ∷ y ∷ xs) = max x (max_or_one (y ∷ xs))

abbrev pub any_chosen : Manual → Bool
any_chosen [] = false
any_chosen ((slot, c) ∷ manual) = is_chosen c || any_chosen manual

abbrev pub stays : Dict → Bool
stays [] = true
stays ((p, l) ∷ places) = p == l && stays places

-- A serial number as a number: its characters as digits, the first one last.
abbrev pub serial_number : Text → ℕ
serial_number [] = 0
serial_number (c ∷ s) = suc c + 1114112 * serial_number s

abbrev pub auto_assignment : Text
auto_assignment = codes "__auto__"

abbrev pub empty_assignment : Text
empty_assignment = codes "__empty__"

abbrev pub choice_of : Text → Choice
choice_of value =
    if is_text value auto_assignment
    then automatic
    else if is_text value empty_assignment
    then empty
    else pack (serial_number value)

abbrev pub manual_of : List (ℕ × Text) → Manual
manual_of [] = []
manual_of ((slot, value) ∷ assignments) = (slot, choice_of value) ∷ manual_of assignments

abbrev pub numbered : List (ℕ × Text) → Dict
numbered [] = []
numbered ((slot, serial) ∷ serials) = (slot, serial_number serial) ∷ numbered serials

module _ (Float : Type 0) (repr : Float → Text) where
  -- The payload and the highest slot, for the packs in their places.
  unfoldable pub remapped : Manual → Dict → Dict → Payload Float repr → Payload Float repr × ℕ
  remapped manual current places payload =
      if not (any_chosen manual) && (stays places && length places == length current)
      then (payload, max_or_one (values places))
      else (remap (is_reserved manual) places current payload, max_or_one (values places))

  -- The mapping of the device behind the packet, with the payload and the highest slot.
  unfoldable pub stabilize_battery_payload :
      Bool → List (ℕ × Text) → Dict → Payload Float repr → Dict × (Payload Float repr × ℕ)
  stabilize_battery_payload use_stable_auto assignments mapping payload =
      let current = numbered (serials_from_payload Float repr payload) in
      let manual = manual_of assignments in
      let (mapping', places) = stabilize_slots use_stable_auto manual current mapping in
      if is_empty current && is_empty assignments
      then (mapping, (payload, 1))
      else (mapping', remapped manual current places payload)
