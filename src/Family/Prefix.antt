-- ===== src/Family/Prefix.antt =====
-- A serial number belongs to the family whose prefix it begins with.
use gro_bro.Prelude.{
  ℕ, ◌≡◌, refl, ap, subst, ◌∙◌, inl, inr, Bool, true, false, not, ◌&&◌, Option, none, some, List,
  [], ◌∷◌, ◌++◌, arith, Bool-cases, Option-cases, take, All,
}
use gro_bro.Family.{
  device_families, has_text, or_family, prefix_to_family, prefix_lengths, family_by_lengths,
  get_device_family, is_known_device, is_gateway_device, register_map_supports_time_sync,
  supports_time_sync, RegisterMap, DeviceFamily,
}
use gro_bro.Bytes.{Text}

-- Every serial number that begins with a prefix of a family is resolved to this family.
pub get_device_family-prefixes :
    (rest : Text)
    → All (λ f. All (λ p. get_device_family (p ++ rest) ≡ some f) f.prefixes) device_families
unfolding get_device_family
get_device_family-prefixes [] = (
  (refl, tt),
  ((refl, tt), ((refl, (refl, tt)), ((refl, tt), ((refl, tt), ((refl, tt), ((refl, tt), tt)))))),
)
get_device_family-prefixes (c ∷ rest) = (
  (refl, tt),
  ((refl, tt), ((refl, (refl, tt)), ((refl, tt), ((refl, tt), ((refl, tt), ((refl, tt), tt)))))),
)

abbrev or_default : DeviceFamily → Option DeviceFamily → DeviceFamily
or_default f none = f
or_default f (some g) = g

some-injective : (g f : DeviceFamily) → ◌≡◌ {A = Option DeviceFamily} (some g) (some f) → g ≡ f
some-injective g f same = ap (or_default g) same

here :
    (prefix : Text) (g f : DeviceFamily)
    → or_family none (has_text prefix g.prefixes) g ≡ some f
    → has_text prefix f.prefixes ≡ true
here prefix g f h = elim (Bool-cases (has_text prefix g.prefixes)) [
  | inl there ↦
      let same : some g ≡ some f = rw there at h in
      let eq : g ≡ f = some-injective g f same in
      subst (λ k. has_text prefix k.prefixes ≡ true) eq there
  | inr other ↦ let no : none ≡ some f = rw other at h in cc
]

prefix_to_family_mem :
    (prefix : Text) (fs : List DeviceFamily) (f : DeviceFamily)
    → prefix_to_family prefix fs ≡ some f
    → has_text prefix f.prefixes ≡ true
prefix_to_family_mem prefix [] f h = cc
prefix_to_family_mem prefix (g ∷ fs) f h = elim (Option-cases (prefix_to_family prefix fs)) [
  | inr (k, later) ↦
      let same : some k ≡ some f = rw later at h in prefix_to_family_mem prefix fs f (later ∙ same)
  | inl new ↦ here prefix g f (rw new at h)
]

family_by_lengths_mem :
    (ns : List ℕ) (text : Text) (f : DeviceFamily)
    → family_by_lengths ns text ≡ some f
    → (n : ℕ) × (has_text (take n text) f.prefixes ≡ true)
family_by_lengths_mem [] text f h = cc
family_by_lengths_mem (n ∷ ns) text f h =
    elim (Option-cases (prefix_to_family (take n text) device_families)) [
      | inl next ↦ family_by_lengths_mem ns text f (rw next at h)
      | inr (g, found) ↦
          let same : some g ≡ some f = rw found at h in
          let eq : g ≡ f = some-injective g f same in
          (
            n,
            subst (λ k. has_text (take n text) k.prefixes ≡ true) eq
                (prefix_to_family_mem (take n text) device_families g found),
          )
    ]

-- A serial number is resolved only to a family one of whose prefixes it begins with.
pub get_device_family_sound :
    (device_id : Text) (f : DeviceFamily)
    → get_device_family device_id ≡ some f
    → (n : ℕ) × (has_text (take n device_id) f.prefixes ≡ true)
unfolding get_device_family
get_device_family_sound device_id f h = family_by_lengths_mem prefix_lengths device_id f h

-- A device that gets the clock write is a known one and not a gateway.
pub supports_time_sync-is_gateway_device :
    (system_time : RegisterMap → Option (ℕ × Bool)) (device_id : Text)
    → supports_time_sync system_time device_id ≡ true
    → (is_known_device device_id ≡ true) × (is_gateway_device device_id ≡ false)
unfolding supports_time_sync is_known_device is_gateway_device
supports_time_sync-is_gateway_device system_time device_id h =
    elim (Option-cases (get_device_family device_id)) [
      | inl unknown ↦ let no : false ≡ true = rw unknown at h in cc
      | inr (f, found) ↦
          let able : (not f.is_gateway && register_map_supports_time_sync system_time f.registers)
              ≡ true =
            rw found at h in
          rw found (refl, ground arith)
    ]
