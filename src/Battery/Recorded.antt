-- ===== src/Battery/Recorded.antt =====
-- The JSON of reported packs is loaded as these packs.
use gro_bro.Prelude.{
  ◌>>=◌, ℕ, ◌≡◌, refl, ◌∙◌, inl, inr, Bool, true, false, Option, none, some, List, [], ◌∷◌, map,
  if◌then◌else◌, Bool-cases,
}
use gro_bro.Battery.Serials.{is_plausible_serial}
use gro_bro.Bytes.{Text}
use gro_bro.Battery.Detected.{
  Serials, kept_entry, clean_entries, add_detected, device_detected, all_detected,
  load_detected_serials, entry_json,
}
use gro_bro.Dicts.{
  codes, is_text_iff, TextDict, get_item, set_item, IsDict, get_item-set_item, set_item-IsDict,
}
use gro_bro.Battery.Stable.{IsTracked}
use gro_bro.Register.{ℤ, pos}
use gro_bro.Family.{is_text, has_text}
use gro_bro.Battery.Files.{Reading, loaded}
use gro_bro.Battery.Moves.{◌orelse◌}
use gro_bro.Battery.Expected.{orelse-none}
use gro_bro.Battery.Plausible.{clean_text-plausible}

-- Packs as `_serials_from_payload` reports them, where no serial number is reported twice.
abbrev pub AreDetected : List Text → Serials → Type 0
AreDetected seen [] = Unit
AreDetected seen ((slot, serial) ∷ serials) =
    (is_plausible_serial serial ≡ true)
    × IsTracked slot
    × (has_text serial seen ≡ false)
    × AreDetected (serial ∷ seen) serials

-- What is relied on of the JSON file: what is dumped is read again, a dict in an order of its own.
module _ (J : Type 0) (as_dict : J → Option (TextDict J)) (as_list : J → Option (List J))
    (to_int : J → Option ℤ) (to_str : J → Text) (is_null : J → Bool) (same : J → J → Bool)
    (of_dict : TextDict J → J) (of_list : List J → J) (of_text : Text → J) (of_int : ℕ → J)
    (dump_dict : (d : TextDict J)
      → IsDict d
      → (d' : TextDict J) × (as_dict (of_dict d) ≡ some d')
        × IsDict d'
        × ((k : Text) → get_item k d' ≡ get_item k d))
    (dump_list : (js : List J) → as_list (of_list js) ≡ some js)
    (dump_text : (t : Text) → (to_str (of_text t) ≡ t) × (is_null (of_text t) ≡ false))
    (dump_int : (n : ℕ) → to_int (of_int n) ≡ some (pos n)) where
  abbrev pub entry : ℕ × Text → J
  entry = entry_json J as_dict as_list to_int to_str is_null same of_dict of_list of_text of_int

  abbrev clean : List J → List Text → Serials
  clean = clean_entries J as_dict as_list to_int to_str is_null

  kept_entry-entry_json :
      (seen : List Text) (slot : ℕ) (serial : Text)
      → is_plausible_serial serial ≡ true
      → IsTracked slot
      → has_text serial seen ≡ false
      → kept_entry J as_dict as_list to_int to_str is_null seen (as_dict (entry (slot, serial)))
        ≡ some (slot, serial)
  kept_entry-entry_json seen slot serial p t n =
      let fields = (codes "physical_slot", of_int slot) ∷ (codes "serial", of_text serial) ∷ [] in
      let (d, read, dict, items) = dump_dict fields (refl, (refl, tt)) in
      rw
        (
          read,
          items (codes "serial"),
          items (codes "physical_slot"),
          (dump_text serial).0,
          (dump_text serial).1,
          clean_text-plausible serial p,
          dump_int slot,
          p,
          t,
          n,
        )
        refl

  clean_entries-entries_json :
      (serials : Serials) (seen : List Text)
      → AreDetected seen serials
      → clean (map entry serials) seen ≡ serials
  clean_entries-entries_json [] seen h = refl
  clean_entries-entries_json ((slot, serial) ∷ serials) seen h =
      rw
        (
          kept_entry-entry_json seen slot serial h.0 h.1 h.2,
          clean_entries-entries_json serials (serial ∷ seen) h.3,
        )
        refl

  abbrev nonempty : Serials → Option Serials
  nonempty [] = none
  nonempty (e ∷ serials) = some (e ∷ serials)

  -- What the loader makes of one device.
  abbrev pub device_serials : Option J → Option Serials
  device_serials o = o >>= λ j. as_list j >>= λ es. nonempty (clean es [])

  add_detected-lookup :
      (i k : Text) (serials : Serials) (result : TextDict Serials)
      → get_item k (add_detected J as_dict as_list to_int to_str is_null i serials result)
        ≡ (if is_text k i then (nonempty serials orelse get_item k result) else get_item k result)
  add_detected-lookup i k [] result = elim (Bool-cases (is_text k i)) [
    | inl e ↦ rw e refl
    | inr e ↦ rw e refl
  ]
  add_detected-lookup i k (e ∷ serials) result = get_item-set_item k i (e ∷ serials) result

  device_detected-lookup :
      (i k : Text) (o : Option (List J)) (result : TextDict Serials)
      → get_item k (device_detected J as_dict as_list to_int to_str is_null i o result) ≡ (
          if is_text k i
          then ((o >>= λ es. nonempty (clean es [])) orelse get_item k result)
          else get_item k result)
  device_detected-lookup i k none result = elim (Bool-cases (is_text k i)) [
    | inl e ↦ rw e refl
    | inr e ↦ rw e refl
  ]
  device_detected-lookup i k (some es) result = add_detected-lookup i k (clean es []) result

  all_detected-lookup :
      (raw : TextDict J) (result : TextDict Serials) (k : Text)
      → IsDict raw
      → get_item k (all_detected J as_dict as_list to_int to_str is_null raw result)
        ≡ (device_serials (get_item k raw) orelse get_item k result)
  all_detected-lookup [] result k h = refl
  all_detected-lookup ((i, j) ∷ raw) result k h = elim (Bool-cases (is_text k i)) [
    | inr other ↦
        rw
          (
            other,
            all_detected-lookup raw
                (device_detected J as_dict as_list to_int to_str is_null i (as_list j) result) k
                h.1,
            device_detected-lookup i k (as_list j) result,
            other,
          )
          refl
    | inl here ↦
        let eq : k ≡ i = (is_text_iff k i).0 here in
        let fresh : get_item k raw ≡ none = rw eq h.0 in
        rw
          (
            here,
            all_detected-lookup raw
                (device_detected J as_dict as_list to_int to_str is_null i (as_list j) result) k
                h.1,
            fresh,
            device_detected-lookup i k (as_list j) result,
            here,
          )
          refl
  ]

  abbrev pub load : Reading J → TextDict Serials
  load = load_detected_serials J as_dict as_list to_int to_str is_null

  pub load-updated :
      (i k : Text) (e : ℕ × Text) (serials : Serials) (cache : TextDict J)
      → IsDict cache
      → AreDetected [] (e ∷ serials)
      → get_item k (load (loaded (of_dict (set_item i (of_list (map entry (e ∷ serials))) cache))))
        ≡ (if is_text k i then some (e ∷ serials) else device_serials (get_item k cache))
  unfolding load_detected_serials
  load-updated i k e serials cache h good =
      let packs = of_list (map entry (e ∷ serials)) in
      let (d, read, dict, items) =
        dump_dict (set_item i packs cache) (set_item-IsDict i packs cache h) in
      let there : get_item k d ≡ (if is_text k i then some packs else get_item k cache) =
        items k ∙ get_item-set_item k i packs cache in
      rw (read, all_detected-lookup d [] k dict, orelse-none (device_serials (get_item k d)), there)
        (elim (Bool-cases (is_text k i)) [
          | inl here ↦
              rw
                (
                  here,
                  dump_list (map entry (e ∷ serials)),
                  clean_entries-entries_json (e ∷ serials) [] good,
                )
                refl
          | inr other ↦ rw other refl
        ])
