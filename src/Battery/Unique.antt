-- ===== src/Battery/Unique.antt =====
-- No name stands twice in a payload that is remapped.
use gro_bro.Prelude.{ℕ, inl, inr, Bool, List, [], ◌∷◌, Option-cases, if_keeps}
use gro_bro.Battery.Payload.{or_own, is_skipped, plain_items, slot_items, move_items, remap}
use gro_bro.Dicts.{TextDict, set_item, IsDict, set_item-IsDict}
use gro_bro.Battery.Slots.{Dict, lookup}
use gro_bro.Bytes.{Text}
use gro_bro.Battery.Keys.{logical_slot_from_key, remap_key}

module _ {ℓ} {V : Type ℓ} where
  plain_items-IsDict : (payload d : TextDict V) → IsDict d → IsDict (plain_items payload d)
  plain_items-IsDict [] d h = h
  plain_items-IsDict ((key, v) ∷ payload) d h = elim (Option-cases (logical_slot_from_key key)) [
    | inl plain ↦
        rw plain (plain_items-IsDict payload (set_item key v d) (set_item-IsDict key v d h))
    | inr (p, of) ↦ rw of (plain_items-IsDict payload d h)
  ]

  move_items-IsDict :
      (reserved : ℕ → Bool) (places current : Dict) (items : List (Text × (V × ℕ))) (d : TextDict V)
      → IsDict d
      → IsDict (move_items reserved places current items d)
  move_items-IsDict reserved places current [] d h = h
  move_items-IsDict reserved places current ((key, (v, p)) ∷ items) d h =
      move_items-IsDict reserved places current items _ (
        if_keeps IsDict (is_skipped reserved places current p) h
          (set_item-IsDict (remap_key key (or_own p (lookup p places))) v d h))

  pub remap-IsDict :
      (reserved : ℕ → Bool) (places current : Dict) (payload : TextDict V)
      → IsDict (remap reserved places current payload)
  unfolding remap
  remap-IsDict reserved places current payload =
      move_items-IsDict reserved places current (slot_items payload) (plain_items payload [])
        (plain_items-IsDict payload [] tt)
