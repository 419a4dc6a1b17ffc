-- ===== src/Publish/Rules.antt =====
-- `_register_rules` of grobro/ha/performance.py: what Home Assistant needs to know of the input
-- registers of a device, and the cache of it.
use gro_bro.Prelude.{
  ℕ, Bool, true, false, ◌&&◌, ◌||◌, Option, none, some, List, [], ◌∷◌, ◌++◌, ltb, ◌==◌,
  if◌then◌else◌, length,
}
use gro_bro.Dicts.{codes, TextDict, set_item}
use gro_bro.Bytes.{Text}
use gro_bro.Register.{DataType, enum_value, EnumOptions}
use gro_bro.Family.{is_text}
use gro_bro.Client.Topic.{starts_with}

-- What is read of an input register: `growatt.data` with its type and enum options, and the device
-- class and unit of `homeassistant`.
pub record KnownRegister : Type 0 where
  pub data_type : Option DataType
  pub enum_options : Option EnumOptions
  pub device_class : Option Text
  pub unit_of_measurement : Option Text

pub record Rules : Type 0 where
  pub enum_registers : TextDict KnownRegister
  pub invalid_battery_temps : List Text
  pub whole_watt_power : List Text
  pub has_battery_serial_parts : Bool

abbrev pub no_rules : Rules
no_rules = record {
  enum_registers = [];
  invalid_battery_temps = [];
  whole_watt_power = [];
  has_battery_serial_parts = false;
}

abbrev pub is_enum : Option DataType → Bool
is_enum (some enum_value) = true
is_enum _ = false

abbrev pub is_some_text : Option Text → Text → Bool
is_some_text none t = false
is_some_text (some s) t = is_text s t

-- `part in s`
abbrev pub has_part : Text → Text → Bool
has_part part [] = is_text part []
has_part part (c ∷ s) = starts_with part (c ∷ s) || has_part part s

-- `s.endswith(suffix)`
abbrev pub ends_with : Text → Text → Bool
ends_with suffix [] = is_text suffix []
ends_with suffix (c ∷ s) = is_text suffix (c ∷ s) || ends_with suffix s

abbrev pub add_rule : Text → KnownRegister → Rules → Rules
add_rule name reg rules = record {
  enum_registers =
      if is_enum reg.data_type
      then set_item name reg rules.enum_registers
      else rules.enum_registers;
  invalid_battery_temps =
      if starts_with (codes "bat") name && ends_with (codes "_temp") name
      then name ∷ rules.invalid_battery_temps
      else rules.invalid_battery_temps;
  whole_watt_power =
      if is_some_text reg.device_class (codes "power")
        && is_some_text reg.unit_of_measurement (codes "W")
      then name ∷ rules.whole_watt_power
      else rules.whole_watt_power;
  has_battery_serial_parts =
      rules.has_battery_serial_parts
      || (starts_with (codes "bat") name && has_part (codes "_ser_part_") name);
}

abbrev pub rules_from : TextDict KnownRegister → Rules → Rules
rules_from [] rules = rules
rules_from ((name, reg) ∷ registers) rules = rules_from registers (add_rule name reg rules)

abbrev pub rules_of : TextDict KnownRegister → Rules
rules_of registers = rules_from registers no_rules

-- An entry of the cache: the address, the object and its rules; the entry used last is the last one.
pub record CacheEntry : Type 0 where
  pub address : ℕ
  pub object : ℕ
  pub rules : Rules

abbrev pub find_entry : ℕ → List CacheEntry → Option CacheEntry
find_entry address [] = none
find_entry address (e ∷ cache) = if address == e.address then some e else find_entry address cache

abbrev pub drop_entry : ℕ → List CacheEntry → List CacheEntry
drop_entry address [] = []
drop_entry address (e ∷ cache) =
    let rest = drop_entry address cache in if address == e.address then rest else e ∷ rest

-- An assignment to a key, and `move_to_end`
abbrev pub at_end_of : List CacheEntry → CacheEntry → List CacheEntry
at_end_of cache e = drop_entry e.address cache ++ e ∷ []

-- `while len(cache) > 32: popitem(last=False)`
abbrev pub evict : List CacheEntry → List CacheEntry
evict [] = []
evict (e ∷ cache) =
    let rest = evict cache in if ltb 32 (length (e ∷ cache)) then rest else e ∷ cache

-- An object is a number, with its address `id(_)` and its registers, which do not change.
module _ (address_of : ℕ → ℕ) (registers_of : ℕ → TextDict KnownRegister) where
  abbrev pub store : ℕ → List CacheEntry → Rules × List CacheEntry
  store object cache =
      let rules = rules_of (registers_of object) in
      (
        rules,
        evict (
            at_end_of cache
              (record { address = address_of object; object = object; rules = rules })),
      )

  abbrev pub on_cached : ℕ → List CacheEntry → Option CacheEntry → Rules × List CacheEntry
  on_cached object cache none = store object cache
  on_cached object cache (some e) =
      if e.object == object then (e.rules, at_end_of cache e) else store object cache

  unfoldable pub register_rules : Option ℕ → List CacheEntry → Rules × List CacheEntry
  register_rules none cache = (no_rules, cache)
  register_rules (some object) cache = on_cached object cache (find_entry (address_of object) cache)
