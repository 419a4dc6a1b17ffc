-- ===== src/Publish/Prepare.antt =====
-- `_prepare_payload` of grobro/ha/performance.py, with `_get_bat_number` of
-- grobro/ha/register_helpers.py and `map_enum_value` of grobro/ha/client.py. What is done with floats
-- is a parameter; digits are ASCII: whether one is -273.1, the integer to which one is rounded, and the one that it equals.
use gro_bro.Prelude.{
  ℕ, ◌+◌, ◌-◌, ◌*◌, Bool, true, false, ◌&&◌, ◌||◌, Option, none, some, List, [], ◌∷◌, ltb, ◌==◌,
  if◌then◌else◌, drop,
}
use gro_bro.Bytes.{Text}
use gro_bro.Register.{int_map, bitfield, EnumOptions, ℤ, pos}
use gro_bro.Client.Topic.{is_digit, starts_with}
use gro_bro.Cells.{str, Cell, nothing, chars, whole, real, flag}
use gro_bro.Publish.Rules.{is_enum, KnownRegister, Rules}
use gro_bro.Dicts.{codes, TextDict, get_item, set_item}
use gro_bro.Family.{has_text}

-- `for c in rest: if c.isdigit(): digits += c else: break`
abbrev pub leading_digits : Text → Text
leading_digits [] = []
leading_digits (c ∷ s) = let rest = leading_digits s in if is_digit c then c ∷ rest else []

abbrev pub number_from : ℕ → Text → ℕ
number_from acc [] = acc
number_from acc (c ∷ s) = number_from (acc * 10 + (c - b'0')) s

abbrev pub number_of_digits : Text → Option ℕ
number_of_digits [] = none
number_of_digits (c ∷ s) = some (number_from 0 (c ∷ s))

abbrev pub skip_underscore : Text → Text
skip_underscore [] = []
skip_underscore (c ∷ s) = if c == b'_' then s else c ∷ s

unfoldable pub get_bat_number : Text → Option ℕ
get_bat_number name =
    if starts_with (codes "battery") name
    then number_of_digits (leading_digits (drop 7 name))
    else if starts_with (codes "bat") name
    then number_of_digits (leading_digits (skip_underscore (drop 3 name)))
    else if starts_with (codes "maxcvbat") name || starts_with (codes "mincvbat") name
    then number_of_digits (leading_digits (drop 8 name))
    else none

abbrev pub is_hidden : ℕ → Option ℕ → Bool
is_hidden effective_max_bat none = false
is_hidden effective_max_bat (some bat_num) = ltb effective_max_bat bat_num

abbrev pub enum_name : List (ℕ × Text) → ℕ → Option Text
enum_name [] n = none
enum_name ((k, name) ∷ values) n = if k == n then some name else enum_name values n

abbrev pub name_of : List (ℕ × Text) → Option ℤ → Option Text
name_of values (some (pos n)) = enum_name values n
name_of values _ = none

module _ (Float : Type 0) (repr : Float → Text) (is_absent : Float → Bool)
    (rounded integral : Float → Option ℤ) where
  -- The integer key that a value equals.
  abbrev pub key_of : Cell Float → Option ℤ
  key_of (whole n) = some n
  key_of (real x) = integral x
  key_of (flag true) = some (pos 1)
  key_of (flag false) = some (pos 0)
  key_of _ = none

  abbrev pub named : Cell Float → Option Text → Cell Float
  named value none = chars (str repr value)
  named value (some name) = chars name

  abbrev pub map_by : Option EnumOptions → Cell Float → Cell Float
  map_by none value = value
  map_by (some options) value = elim options.enum_type [
    | int_map ↦ named value (name_of options.values (key_of value))
    | bitfield ↦ value
  ]

  abbrev pub map_enum_value : KnownRegister → Cell Float → Cell Float
  map_enum_value reg value = if is_enum reg.data_type then map_by reg.enum_options value else value

  abbrev pub is_absent_temp : Cell Float → Bool
  is_absent_temp (real x) = is_absent x
  is_absent_temp _ = false

  abbrev pub map_if : Option KnownRegister → Cell Float → Cell Float
  map_if none value = value
  map_if (some reg) value = map_enum_value reg value

  abbrev pub whole_or : Cell Float → Option ℤ → Cell Float
  whole_or value none = value
  whole_or value (some n) = whole n

  -- `int(round(value))` of a number that is finite
  abbrev pub whole_watts : Cell Float → Cell Float
  whole_watts (real x) = whole_or (real x) (rounded x)
  whole_watts value = value

  abbrev pub prepared_value : Rules → Text → Cell Float → Cell Float
  prepared_value rules key raw_value =
      let present =
        if is_absent_temp raw_value && has_text key rules.invalid_battery_temps
        then nothing
        else raw_value in
      let mapped = map_if (get_item key rules.enum_registers) present in
      if has_text key rules.whole_watt_power then whole_watts mapped else mapped

  abbrev pub prepare_items :
      Rules → ℕ → TextDict (Cell Float) → TextDict (Cell Float) → TextDict (Cell Float)
  prepare_items rules effective_max_bat [] payload = payload
  prepare_items rules effective_max_bat ((key, raw_value) ∷ items) payload =
      prepare_items rules effective_max_bat items (
        if is_hidden effective_max_bat (get_bat_number key)
        then payload
        else set_item key (prepared_value rules key raw_value) payload)

  unfoldable pub prepare_payload : Rules → ℕ → TextDict (Cell Float) → TextDict (Cell Float)
  prepare_payload rules effective_max_bat items = prepare_items rules effective_max_bat items []
