-- ===== src/Publish/Packet.antt =====
-- From the payload of a device to the one that is published, as in `publish_input` of
-- grobro/ha/client.py: the battery slots, the number of slots that are shown, and the values.
use gro_bro.Prelude.{
  ◌>>=◌, ℕ, min, max, Bool, true, false, not, ◌&&◌, ◌||◌, Option, none, some, List, [], ◌∷◌, ◌++◌,
  ltb, leb, ◌==◌, if◌then◌else◌,
}
use gro_bro.Register.{ℤ, pos, negsuc}
use gro_bro.Bytes.{Text}
use gro_bro.Cells.{str, Cell, nothing, whole, real, flag, chars}
use gro_bro.Battery.Serials.{Payload, part_key, cell_at}
use gro_bro.Publish.Rules.{Rules}
use gro_bro.Battery.Slots.{Dict}
use gro_bro.Publish.Prepare.{prepare_payload}
use gro_bro.Dicts.{codes, set_item, del_item}
use gro_bro.Client.Topic.{strip_space}
use gro_bro.Battery.Payload.{any_chosen, manual_of, stabilize_battery_payload}

-- The devices' activity and discovery, which `publish_input` sees to in between, are left out, and so
-- is the count that `_resolve_max_bat` remembers for discovery.

-- `1 <= n <= 4`
abbrev pub small : ℤ → Option ℕ
small (pos n) = if leb 1 n && leb n 4 then some n else none
small (negsuc n) = none

abbrev pub or_else {ℓ} : {A : Type ℓ} → Option A → A → A
or_else none a = a
or_else (some b) a = b

-- `s.strip("\x00 ")` is not empty
abbrev pub is_visible : Text → Bool
is_visible [] = false
is_visible (c ∷ s) = not (c == 0 || c == 32) || is_visible s

abbrev pub effective_max : ℕ → ℕ → ℕ
effective_max resolved stable_logical_max =
    if ltb resolved stable_logical_max then stable_logical_max else resolved

-- `_BAT_SERIAL_GROUPS`: the names of the fragments of a serial number, and the name of the whole.
abbrev pub bat_serial_groups : List (List Text × Text)
bat_serial_groups =
    (
      codes "bat2_ser_part_1"
          ∷ codes "bat2_ser_part_2"
          ∷ codes "bat2_ser_part_3"
          ∷ codes "bat2_ser_part_4"
          ∷ [],
      codes "bat2_serial",
    )
    ∷ (
      codes "bat3_ser_part_1"
          ∷ codes "bat3_ser_part_2"
          ∷ codes "bat3_ser_part_3"
          ∷ codes "bat3_ser_part_4"
          ∷ [],
      codes "bat3_serial",
    )
    ∷ (
      codes "bat4_ser_part_1"
          ∷ codes "bat4_ser_part_2"
          ∷ codes "bat4_ser_part_3"
          ∷ codes "bat4_ser_part_4"
          ∷ [],
      codes "bat4_serial",
    )
    ∷ []

module _ (Float : Type 0) (repr : Float → Text) where
  -- A fragment as text, nothing where it is None.
  abbrev pub part_text : Cell Float → Text
  part_text nothing = []
  part_text value = str repr value

  -- The fragments are taken out and joined.
  abbrev pub pop_parts : List Text → Payload Float repr → Text × Payload Float repr
  pop_parts [] payload = ([], payload)
  pop_parts (key ∷ part_keys) payload =
      let rest = pop_parts part_keys (del_item key payload) in
      (part_text (cell_at Float repr key payload) ++ rest.0, rest.1)

  abbrev pub set_combined : Text → Text → Payload Float repr → Payload Float repr
  set_combined combined_key [] payload = del_item combined_key payload
  set_combined combined_key (c ∷ combined) payload =
      set_item combined_key (chars (c ∷ combined)) payload

  abbrev pub combine_group : Bool → List Text × Text → Payload Float repr → Payload Float repr
  combine_group expose (part_keys, combined_key) payload =
      let popped = pop_parts part_keys payload in
      if expose then set_combined combined_key (strip_space popped.0) popped.1 else popped.1

  abbrev pub combine_groups :
      Bool → List (List Text × Text) → Payload Float repr → Payload Float repr
  combine_groups expose [] payload = payload
  combine_groups expose (group ∷ groups) payload =
      combine_groups expose groups (combine_group expose group payload)

  -- The serial numbers as they are published: whole for a device of the family noah, else not at all.
  unfoldable pub combine_serials : Rules → Bool → Payload Float repr → Payload Float repr
  combine_serials rules expose payload =
      if rules.has_battery_serial_parts
      then combine_groups expose bat_serial_groups payload
      else payload

module _ (Float : Type 0) (repr : Float → Text) (integral : Float → Option ℤ) where
  abbrev pub reported_count : Cell Float → Option ℕ
  reported_count (whole n) = small n
  reported_count (flag true) = some 1
  reported_count _ = none

  abbrev pub nexa_count : Cell Float → Option ℕ
  nexa_count (whole n) = small n
  nexa_count (real x) = integral x >>= small
  nexa_count _ = none

  abbrev pub is_seen : Cell Float → Bool
  is_seen nothing = false
  is_seen value = is_visible (str repr value)

  abbrev pub observed_count : Payload Float repr → List ℕ → ℕ → ℕ
  observed_count payload [] count = count
  observed_count payload (bat_num ∷ bats) count = observed_count payload bats (
      if is_seen (cell_at Float repr (part_key Float repr bat_num 1) payload)
      then bat_num
      else count)

  unfoldable pub detect_bat_count : Payload Float repr → ℕ
  detect_bat_count payload =
      or_else (reported_count (cell_at Float repr (codes "bat_cnt") payload)) (
        or_else (nexa_count (cell_at Float repr (codes "batteryPackageQuantity") payload))
          (observed_count payload (2 ∷ 3 ∷ 4 ∷ []) 1))

  -- The option `MAX_BAT` is an integer or none.
  abbrev pub clamped : ℤ → ℕ
  clamped (pos n) = max 1 (min 4 n)
  clamped (negsuc n) = 1

  abbrev pub resolve_max_bat : Option ℤ → Payload Float repr → ℕ
  resolve_max_bat none payload = detect_bat_count payload
  resolve_max_bat (some max_bat) payload = clamped max_bat

  -- `prepare_battery_payload`, for files that were read
  unfoldable pub prepare_battery_payload :
      Bool → List (ℕ × Text) → Dict → Payload Float repr → Dict × (Payload Float repr × ℕ)
  prepare_battery_payload use_stable_auto assignments mapping payload =
      if not use_stable_auto && not (any_chosen (manual_of assignments))
      then (mapping, (payload, 1))
      else stabilize_battery_payload Float repr use_stable_auto assignments mapping payload

  module _ (is_absent : Float → Bool) (rounded : Float → Option ℤ) where
    abbrev pub prepare_with : Rules → Option ℤ → Payload Float repr × ℕ → Payload Float repr
    prepare_with rules max_bat (state_payload, stable_logical_max) =
        prepare_payload Float repr is_absent rounded integral rules
          (effective_max (resolve_max_bat max_bat state_payload) stable_logical_max) state_payload

    -- The payload of a device of the NOAH protocol, as it is published; `is_noah` says whether it is of
    -- the family noah.
    unfoldable pub prepared_state :
        Rules
        → Bool
        → Option ℤ
        → Bool
        → List (ℕ × Text)
        → Dict
        → Payload Float repr
        → Payload Float repr
    prepared_state rules is_noah max_bat use_stable_auto assignments mapping payload =
        combine_serials Float repr rules is_noah (
          prepare_with rules max_bat
            (prepare_battery_payload use_stable_auto assignments mapping payload).1)
