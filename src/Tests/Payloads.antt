-- ===== src/Tests/Payloads.antt =====
-- A device whose pack A has slot 3 and is reported in slot 2, beside a new pack B in slot 3.
use gro_bro.Prelude.{ℕ, ◌≡◌, refl, sym, subst, Bool, true, false, Option, some, [], ◌∷◌}
use gro_bro.Battery.Slots.{
  Dict, lookup, values, automatic_slot, assign_one, assign_all, explicit_places, place_one,
  place_rest, stabilize_slots,
}
use gro_bro.Battery.Stable.{Distinct, IsStable}
use gro_bro.Bytes.{Text}
use gro_bro.Battery.Serials.{
  is_plausible_serial, clean_serial_part, Payload, serial_of_slot, serials_from_payload,
}
use gro_bro.Battery.Keys.{match_key, logical_slot_from_key, remap_key}
use gro_bro.Dicts.{codes, get_item, IsDict}
use gro_bro.Publish.Prepare.{get_bat_number}
use gro_bro.Battery.Payload.{serial_number, numbered, stabilize_battery_payload}
use gro_bro.Client.Topic.{decimal}
use gro_bro.Cells.{chars, whole}
use gro_bro.Publish.Packet.{combine_serials, prepared_state}
use gro_bro.Register.{ℤ, pos}
use gro_bro.Publish.Shown.{get_bat_number-logical_slot_from_key}
use gro_bro.Publish.Rules.{Rules, no_rules}
use gro_bro.Publish.Packs.{places_of, prepared_state-pack}
use gro_bro.Battery.Stabilized.{packet_value, stabilize_battery_payload-packet_value}

abbrev repr : ℕ → Text
repr = decimal

abbrev no_float : ℕ → Bool
no_float x = false

abbrev as_whole : ℕ → Option ℤ
as_whole x = some (pos x)

abbrev serial_a : Text
serial_a = codes "AAAA000001"

abbrev payload : Payload ℕ repr
payload =
    (codes "bat2_ser_part_1", chars serial_a)
    ∷ (codes "bat3_ser_part_1", chars (codes "BBBB000002"))
    ∷ (codes "bat2_soc", whole (pos 55))
    ∷ (codes "bat3_soc", whole (pos 66))
    ∷ (codes "ppv", whole (pos 7))
    ∷ []

abbrev mapping : Dict
mapping = (serial_number serial_a, 3) ∷ []

mapping-IsStable : IsStable mapping
mapping-IsStable = ((refl, tt), (refl, tt))

payload-IsDict : IsDict payload
payload-IsDict = (refl, (refl, (refl, (refl, (refl, tt)))))

current :
    numbered (serials_from_payload ℕ repr payload)
    ≡ (2, serial_number serial_a) ∷ (3, serial_number (codes "BBBB000002")) ∷ []
unfolding serials_from_payload serial_of_slot clean_serial_part is_plausible_serial decimal
current = refl

current-Distinct : Distinct (values (numbered (serials_from_payload ℕ repr payload)))
current-Distinct = subst (λ c. Distinct (values c)) (sym current) (refl, (refl, tt))

of_slot : logical_slot_from_key (codes "bat2_soc") ≡ some 2
unfolding logical_slot_from_key match_key
of_slot = refl

placed : lookup 2 (places_of ℕ repr true [] mapping payload) ≡ some 3
unfolding stabilize_slots explicit_places place_rest place_one assign_all assign_one automatic_slot
placed = rw current refl

stabilize_battery_payload-packet_value_example :
    get_item (codes "bat3_soc") (stabilize_battery_payload ℕ repr true [] mapping payload).1.0
    ≡ packet_value ℕ repr true [] mapping payload (codes "bat3_soc")
stabilize_battery_payload-packet_value_example =
    stabilize_battery_payload-packet_value ℕ repr true [] mapping payload (codes "bat3_soc")
      (tt, tt) mapping-IsStable current-Distinct payload-IsDict

-- The rules of registers of which some hold fragments of serial numbers.
abbrev with_parts : Rules
with_parts = record no_rules { has_battery_serial_parts = true }

-- The fragments are joined and taken out.
serials_combined :
    combine_serials ℕ repr with_parts true payload
    ≡ (codes "bat2_soc", whole (pos 55))
      ∷ (codes "bat3_soc", whole (pos 66))
      ∷ (codes "ppv", whole (pos 7))
      ∷ (codes "bat2_serial", chars (codes "AAAA000001"))
      ∷ (codes "bat3_serial", chars (codes "BBBB000002"))
      ∷ []
unfolding combine_serials
serials_combined = refl

prepared_state-pack_example :
    get_item (remap_key (codes "bat2_soc") 3) (
      prepared_state ℕ repr as_whole no_float as_whole with_parts true
        (some (pos 1))
        true
        []
        mapping
        payload)
    ≡ some (whole (pos 55))
unfolding remap_key match_key decimal
prepared_state-pack_example =
    prepared_state-pack ℕ repr true [] mapping payload no_float as_whole as_whole with_parts true
      (some (pos 1)) (codes "bat2_soc") 2 3 (tt, tt) mapping-IsStable current-Distinct
      payload-IsDict refl of_slot placed refl

get_bat_number-logical_slot_from_key_example : get_bat_number (codes "bat2_soc") ≡ some 2
get_bat_number-logical_slot_from_key_example =
    get_bat_number-logical_slot_from_key (codes "bat2_soc") 2 of_slot
