-- ===== src/Family.antt =====
-- grobro/model/device_family.py: the families of devices, by the prefix of a serial number, and what
-- they can do. The register maps are JSON data; what is read of one is a parameter.
pub mod Prefix
use gro_bro.Prelude.{
  ℕ, Bool, true, false, not, ◌&&◌, ◌||◌, Option, none, some, List, [], ◌∷◌, ltb, ◌==◌,
  if◌then◌else◌, length, take,
}
use gro_bro.Bytes.{Text}

pub data RegisterMap : Type 0 where
  known_noah_registers : RegisterMap
  known_nexa_registers : RegisterMap
  known_neo_registers : RegisterMap
  known_spf_registers : RegisterMap
  known_xh2_registers : RegisterMap
  known_mod_registers : RegisterMap

pub record DeviceFamily : Type 0 where
  pub key : Text
  pub display_name : Text
  pub prefixes : List Text
  pub registers : RegisterMap
  pub dynamic_pv_count : Bool
  pub is_gateway : Bool
  pub noah_protocol : Bool

-- The fields with a default, given as the last three.
abbrev family : Text → Text → List Text → RegisterMap → Bool → Bool → Bool → DeviceFamily
family key name prefixes registers pv gateway protocol = record {
  key = key;
  display_name = name;
  prefixes = prefixes;
  registers = registers;
  dynamic_pv_count = pv;
  is_gateway = gateway;
  noah_protocol = protocol;
}

abbrev noah : DeviceFamily
noah =
    family (b'n' ∷ b'o' ∷ b'a' ∷ b'h' ∷ []) (b'N' ∷ b'O' ∷ b'A' ∷ b'H' ∷ [])
      ((b'0' ∷ b'P' ∷ b'V' ∷ b'P' ∷ []) ∷ []) known_noah_registers false false true

abbrev nexa : DeviceFamily
nexa =
    family (b'n' ∷ b'e' ∷ b'x' ∷ b'a' ∷ []) (b'N' ∷ b'E' ∷ b'X' ∷ b'A' ∷ [])
      ((b'0' ∷ b'H' ∷ b'V' ∷ b'R' ∷ []) ∷ []) known_nexa_registers false false true

abbrev pub neo : DeviceFamily
neo =
    family (b'n' ∷ b'e' ∷ b'o' ∷ []) (b'N' ∷ b'E' ∷ b'O' ∷ [])
      ((b'Q' ∷ b'M' ∷ b'N' ∷ []) ∷ (b'P' ∷ b'T' ∷ b'Q' ∷ []) ∷ []) known_neo_registers true false
      false

abbrev shinewelink : DeviceFamily
shinewelink =
    family (b's' ∷ b'h' ∷ b'i' ∷ b'n' ∷ b'e' ∷ b'w' ∷ b'e' ∷ b'l' ∷ b'i' ∷ b'n' ∷ b'k' ∷ [])
      (b'S' ∷ b'h' ∷ b'i' ∷ b'n' ∷ b'e' ∷ b'W' ∷ b'e' ∷ b'L' ∷ b'i' ∷ b'n' ∷ b'k' ∷ [])
      ((b'R' ∷ b'A' ∷ b'Q' ∷ []) ∷ []) known_neo_registers false true false

abbrev spf : DeviceFamily
spf =
    family (b's' ∷ b'p' ∷ b'f' ∷ []) (b'S' ∷ b'P' ∷ b'F' ∷ []) ((b'H' ∷ b'A' ∷ b'Q' ∷ []) ∷ [])
      known_spf_registers false false false

abbrev min_xh2 : DeviceFamily
min_xh2 =
    family (b'm' ∷ b'i' ∷ b'n' ∷ b'_' ∷ b'x' ∷ b'h' ∷ b'2' ∷ [])
      (b'M' ∷ b'I' ∷ b'N' ∷ b'-' ∷ b'X' ∷ b'H' ∷ b'2' ∷ []) ((b'Z' ∷ b'G' ∷ b'Q' ∷ []) ∷ [])
      known_xh2_registers false false false

abbrev mod_family : DeviceFamily
mod_family =
    family (b'm' ∷ b'o' ∷ b'd' ∷ []) (b'M' ∷ b'O' ∷ b'D' ∷ []) ((b'V' ∷ b'W' ∷ b'Q' ∷ []) ∷ [])
      known_mod_registers true false false

abbrev pub device_families : List DeviceFamily
device_families = noah ∷ nexa ∷ neo ∷ shinewelink ∷ spf ∷ min_xh2 ∷ mod_family ∷ []

abbrev pub is_text : Text → Text → Bool
is_text [] [] = true
is_text (a ∷ s) (b ∷ t) = a == b && is_text s t
is_text _ _ = false

abbrev pub has_text : Text → List Text → Bool
has_text s [] = false
has_text s (t ∷ ts) = is_text s t || has_text s ts

abbrev pub or_family : Option DeviceFamily → Bool → DeviceFamily → Option DeviceFamily
or_family (some g) test f = some g
or_family none test f = if test then some f else none

-- `_PREFIX_TO_FAMILY.get(prefix)`, in which the last family of a prefix wins.
abbrev pub prefix_to_family : Text → List DeviceFamily → Option DeviceFamily
prefix_to_family prefix [] = none
prefix_to_family prefix (f ∷ fs) =
    or_family (prefix_to_family prefix fs) (has_text prefix f.prefixes) f

-- A set of lengths, sorted, the longest first.
abbrev add_length : ℕ → List ℕ → List ℕ
add_length n [] = n ∷ []
add_length n (m ∷ ms) =
    let rest = add_length n ms in
    if n == m then m ∷ ms else if ltb m n then n ∷ m ∷ ms else m ∷ rest

abbrev add_lengths : List Text → List ℕ → List ℕ
add_lengths [] lengths = lengths
add_lengths (t ∷ ts) lengths = add_length (length t) (add_lengths ts lengths)

abbrev lengths_of : List DeviceFamily → List ℕ
lengths_of [] = []
lengths_of (f ∷ fs) = add_lengths f.prefixes (lengths_of fs)

abbrev pub prefix_lengths : List ℕ
prefix_lengths = lengths_of device_families

abbrev or_next : Option DeviceFamily → Option DeviceFamily → Option DeviceFamily
or_next (some f) next = some f
or_next none next = next

abbrev pub family_by_lengths : List ℕ → Text → Option DeviceFamily
family_by_lengths [] text = none
family_by_lengths (n ∷ ns) text =
    or_next (prefix_to_family (take n text) device_families) (family_by_lengths ns text)

-- The cache in front of it changes nothing.
unfoldable pub get_device_family : Text → Option DeviceFamily
get_device_family device_id = family_by_lengths prefix_lengths device_id

abbrev pub test_family : (DeviceFamily → Bool) → Option DeviceFamily → Bool
test_family test none = false
test_family test (some f) = test f

unfoldable pub is_known_device : Text → Bool
is_known_device device_id = test_family (λ f. true) (get_device_family device_id)

unfoldable pub is_family : Text → Text → Bool
is_family device_id family_key =
    test_family (λ f. is_text f.key family_key) (get_device_family device_id)

unfoldable pub is_gateway_device : Text → Bool
is_gateway_device device_id = test_family (λ f. f.is_gateway) (get_device_family device_id)

unfoldable pub get_known_registers : Text → Option RegisterMap
get_known_registers device_id = elim (get_device_family device_id) [
  | none ↦ none
  | some f ↦ some f.registers
]

abbrev name_or_unknown : Option DeviceFamily → Text
name_or_unknown (some f) = f.display_name
name_or_unknown none = b'U' ∷ b'N' ∷ b'K' ∷ b'N' ∷ b'O' ∷ b'W' ∷ b'N' ∷ []

unfoldable pub get_device_type_name : Text → Text
get_device_type_name device_id = name_or_unknown (get_device_family device_id)

unfoldable pub uses_dynamic_pv_count : Text → Bool
uses_dynamic_pv_count device_id =
    test_family (λ f. f.dynamic_pv_count) (get_device_family device_id)

unfoldable pub uses_noah_protocol : Text → Bool
uses_noah_protocol device_id = test_family (λ f. f.noah_protocol) (get_device_family device_id)

-- The number of the register "system_time" of a map, and whether its type is STRING.
module _ (system_time : RegisterMap → Option (ℕ × Bool)) where
  abbrev pub register_map_supports_time_sync : RegisterMap → Bool
  register_map_supports_time_sync registers = elim (system_time registers) [
    | none ↦ false
    | some (register_no, is_string) ↦ register_no == 31 && is_string
  ]

  unfoldable pub supports_time_sync : Text → Bool
  supports_time_sync device_id =
      test_family (λ f. not f.is_gateway && register_map_supports_time_sync f.registers)
        (get_device_family device_id)
