-- ===== src/Battery/Serials.antt =====
-- The serial numbers of the packs in a payload: `_clean_serial_part`, `_is_plausible_serial` and
-- `_serials_from_payload`. What `isalnum` and `strip` do is written out for ASCII.
use gro_bro.Prelude.{
  ℕ, Bool, true, false, not, ◌&&◌, ◌||◌, Option, none, some, List, [], ◌∷◌, ◌++◌, map, ltb, leb,
  ◌==◌, if◌then◌else◌, length, all,
}
use gro_bro.Bytes.{Text, strip}
use gro_bro.Cells.{str, Cell, nothing}
use gro_bro.Dicts.{codes, TextDict, get_item}
use gro_bro.Client.Topic.{strip_space, is_alnum, decimal}
use gro_bro.Battery.Slots.{tracked_slots}
use gro_bro.Family.{is_text}

abbrev pub clean_text : Text → Text
clean_text s = strip_space (strip (strip_space s))

-- A letter, a digit, a dot, an underscore or a dash.
abbrev pub is_serial_char : ℕ → Bool
is_serial_char c = is_alnum c || (c == b'.' || (c == b'_' || c == b'-'))

unfoldable pub is_plausible_serial : Text → Bool
is_plausible_serial value =
    (leb 8 (length value) && leb (length value) 40) && all is_serial_char value

abbrev pub or_nothing : {Float : Type 0} → Option (Cell Float) → Cell Float
or_nothing none = nothing
or_nothing (some value) = value

abbrev pub is_nothing : {Float : Type 0} → Cell Float → Bool
is_nothing nothing = true
is_nothing _ = false

module _ (Float : Type 0) (repr : Float → Text) where
  unfoldable pub clean_serial_part : Cell Float → Text
  clean_serial_part nothing = []
  clean_serial_part value = clean_text (str repr value)

  abbrev pub Payload : Type 0
  Payload = TextDict (Cell Float)

  abbrev pub part_key : ℕ → ℕ → Text
  part_key slot index = codes "bat" ++ (decimal slot ++ (codes "_ser_part_" ++ decimal index))

  -- `payload.get(key)`, which is None for a missing key too
  abbrev pub cell_at : Text → Payload → Cell Float
  cell_at key payload = or_nothing (get_item key payload)

  -- `key not in payload or payload[key] is None`
  abbrev pub is_missing : Payload → Text → Bool
  is_missing payload key = is_nothing (cell_at key payload)

  abbrev pub joined : List Text → Text
  joined [] = []
  joined (part ∷ parts) = part ++ joined parts

  abbrev pub any_text : List Text → Bool
  any_text [] = false
  any_text (part ∷ parts) = not (is_text part []) || any_text parts

  abbrev pub any_missing : Payload → List Text → Bool
  any_missing payload [] = false
  any_missing payload (key ∷ keys) = is_missing payload key || any_missing payload keys

  abbrev pub part_at : Payload → Text → Text
  part_at payload key = clean_serial_part (cell_at key payload)

  -- The serial number that a slot reports, in four fragments, or whole in the first field.
  unfoldable pub serial_of_slot : Payload → ℕ → Option Text
  serial_of_slot payload slot =
      let first = part_at payload (part_key slot 1) in
      let others =
        map (part_at payload) (part_key slot 2 ∷ part_key slot 3 ∷ part_key slot 4 ∷ []) in
      let complete_serial = ltb 4 (length first) && not (any_text others) in
      let missing =
        any_missing payload
          (part_key slot 1 ∷ part_key slot 2 ∷ part_key slot 3 ∷ part_key slot 4 ∷ []) in
      let serial = strip_space (joined (first ∷ others)) in
      if not complete_serial && missing
      then none
      else if is_plausible_serial serial
      then some serial
      else none

  abbrev pub add_serial : ℕ → Option Text → List (ℕ × Text) → List (ℕ × Text)
  add_serial slot none serials = serials
  add_serial slot (some serial) serials = (slot, serial) ∷ serials

  abbrev pub serials_of_slots : Payload → List ℕ → List (ℕ × Text)
  serials_of_slots payload [] = []
  serials_of_slots payload (slot ∷ slots) =
      add_serial slot (serial_of_slot payload slot) (serials_of_slots payload slots)

  unfoldable pub serials_from_payload : Payload → List (ℕ × Text)
  serials_from_payload payload = serials_of_slots payload tracked_slots
