-- ===== src/Publish/Combined.antt =====
-- What joining the fragments of the serial numbers leaves as it was.
use gro_bro.Prelude.{◌≡◌, refl, ◌∙◌, Bool, false, List, [], ◌∷◌, ◌++◌, arith, if_keeps}
use gro_bro.Bytes.{Text}
use gro_bro.Dicts.{get_item, get_item-set_item, get_item-del_item, del_item}
use gro_bro.Family.{has_text, is_text}
use gro_bro.Client.Topic.{strip_space}
use gro_bro.Battery.Serials.{Payload}
use gro_bro.Publish.Rules.{Rules}
use gro_bro.Publish.Packet.{
  pop_parts, set_combined, combine_group, combine_groups, combine_serials, bat_serial_groups,
}

-- The names of a list of groups.
abbrev pub names_of : List (List Text × Text) → List Text
names_of [] = []
names_of ((part_keys, combined_key) ∷ groups) = part_keys ++ combined_key ∷ names_of groups

has_text-append :
    (key : Text) (xs ys : List Text)
    → has_text key (xs ++ ys) ≡ false
    → (has_text key xs ≡ false) × (has_text key ys ≡ false)
has_text-append key [] ys h = (refl, h)
has_text-append key (x ∷ xs) ys h = ground (arith, has_text-append key xs ys)

module _ (Float : Type 0) (repr : Float → Text) (key : Text) where
  get_item-pop_parts :
      (part_keys : List Text) (payload : Payload Float repr)
      → has_text key part_keys ≡ false
      → get_item key (pop_parts Float repr part_keys payload).1 ≡ get_item key payload
  get_item-pop_parts [] payload h = refl
  get_item-pop_parts (k ∷ part_keys) payload h =
      ground
        (arith, get_item-pop_parts part_keys (del_item k payload), get_item-del_item key k payload)

  get_item-set_combined :
      (combined_key combined : Text) (payload : Payload Float repr)
      → is_text key combined_key ≡ false
      → get_item key (set_combined Float repr combined_key combined payload) ≡ get_item key payload
  get_item-set_combined combined_key [] payload h =
      get_item-del_item key combined_key payload ∙ rw h refl
  get_item-set_combined combined_key (c ∷ combined) payload h =
      get_item-set_item key combined_key _ payload ∙ rw h refl

  get_item-combine_groups :
      (expose : Bool) (groups : List (List Text × Text)) (payload : Payload Float repr)
      → has_text key (names_of groups) ≡ false
      → get_item key (combine_groups Float repr expose groups payload) ≡ get_item key payload
  get_item-combine_groups expose [] payload h = refl
  get_item-combine_groups expose ((part_keys, combined_key) ∷ groups) payload h =
      let (parts, others) = has_text-append key part_keys (combined_key ∷ names_of groups) h in
      let popped = pop_parts Float repr part_keys payload in
      let kept = get_item-pop_parts part_keys payload parts in
      let combined =
        get_item-set_combined combined_key (strip_space popped.0) popped.1 (ground arith) in
      get_item-combine_groups expose groups
        (combine_group Float repr expose (part_keys, combined_key) payload) (ground arith)
      ∙ if_keeps {A = Payload Float repr} (λ p. get_item key p ≡ get_item key payload) expose
          (combined ∙ kept) kept

  -- A name that is none of a serial number is left as it was.
  pub get_item-combine_serials :
      (rules : Rules) (expose : Bool) (payload : Payload Float repr)
      → has_text key (names_of bat_serial_groups) ≡ false
      → get_item key (combine_serials Float repr rules expose payload) ≡ get_item key payload
  unfolding combine_serials
  get_item-combine_serials rules expose payload h =
      if_keeps {A = Payload Float repr} (λ p. get_item key p ≡ get_item key payload)
        rules.has_battery_serial_parts (get_item-combine_groups expose bat_serial_groups payload h)
        refl
