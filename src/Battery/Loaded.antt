-- ===== src/Battery/Loaded.antt =====
-- Whatever the JSON of `battery_positions.json`: the mappings that `load_all_positions` keeps.
use gro_bro.Prelude.{
  ℕ, ◌≡◌, refl, ◌⊎◌, inl, inr, Bool, true, false, not, ◌&&◌, Option, none, some, List, [], ◌∷◌,
  arith, ◌==◌, Bool-cases, if_keeps, if_splits, All,
}
use gro_bro.Battery.Files.{
  Positions, clean_entry, clean_positions, add_positions, device_positions, all_positions,
  positions_of, load_all_positions, Reading, missing, unreadable, malformed, loaded, returned,
  os_error,
}
use gro_bro.Bytes.{Text}
use gro_bro.Dicts.{TextDict, set_item}
use gro_bro.Battery.Slots.{tracked_slots, contains, Dict, values}
use gro_bro.Register.{ℤ, pos, negsuc}
use gro_bro.Battery.Stable.{Distinct, IsTracked, IsStable}
use gro_bro.Battery.Payload.{serial_number}
use gro_bro.Family.{is_text}
use gro_bro.Battery.Serials.{clean_text}

-- A mapping of serials as one of serial numbers.
abbrev pub mapping_of : Positions → Dict
mapping_of [] = []
mapping_of ((serial, slot) ∷ clean) = (serial_number serial, slot) ∷ mapping_of clean

set_item-values :
    (k : Text) (v z : ℕ) (p : Positions)
    → contains z (values (mapping_of p)) ≡ false
    → (z == v) ≡ false
    → contains z (values (mapping_of (set_item k v p))) ≡ false
set_item-values k v z [] h ne = ground arith
set_item-values k v z ((j, w) ∷ p) h ne = ground (arith, set_item-values k v z p)

set_item-Distinct :
    (k : Text) (v : ℕ) (p : Positions)
    → Distinct (values (mapping_of p))
    → contains v (values (mapping_of p)) ≡ false
    → Distinct (values (mapping_of (set_item k v p)))
set_item-Distinct k v [] d h = (refl, tt)
set_item-Distinct k v ((j, w) ∷ p) d h = elim (Bool-cases (is_text k j)) [
  | inl same ↦ rw same (ground arith, d.1)
  | inr other ↦
      rw other
        (set_item-values k v w p d.0 (ground arith), set_item-Distinct k v p d.1 (ground arith))
]

set_item-IsTracked :
    (k : Text) (v : ℕ) (p : Positions)
    → All IsTracked (values (mapping_of p))
    → IsTracked v
    → All IsTracked (values (mapping_of (set_item k v p)))
set_item-IsTracked k v [] h t = (t, tt)
set_item-IsTracked k v ((j, w) ∷ p) h t = elim (Bool-cases (is_text k j)) [
  | inl same ↦ rw same (t, h.1)
  | inr other ↦ rw other (h.0, set_item-IsTracked k v p h.1 t)
]

-- What holds while a device's entries are read.
abbrev Kept : Positions × List ℕ → Type 0
Kept kept =
    IsStable (mapping_of kept.0)
    × ((z : ℕ) → contains z kept.1 ≡ false → contains z (values (mapping_of kept.0)) ≡ false)

module _ (J : Type 0) (as_dict : J → Option (TextDict J)) (to_int : J → Option ℤ)
    (to_str : J → Text) where
  clean_entry-Kept :
      (serial : Text) (slot : Option ℤ) (kept : Positions × List ℕ)
      → Kept kept
      → Kept (clean_entry J as_dict to_int to_str serial slot kept)
  clean_entry-Kept serial none kept h = h
  clean_entry-Kept serial (some (negsuc n)) (clean, used) h =
      if_splits {A = Positions × List ℕ} Kept (not (is_text (clean_text serial) []) && false)
        (λ e. absurd (ground arith)) (λ e. h)
  clean_entry-Kept serial (some (pos n)) (clean, used) h =
      if_splits {A = Positions × List ℕ} Kept
        (not (is_text (clean_text serial) [])
          && (contains n tracked_slots && not (contains n used)))
        (λ e.
          let tracked : IsTracked n = ground arith in
          let free : contains n (values (mapping_of clean)) ≡ false = h.1 n (ground arith) in
          (
            (
              set_item-Distinct (clean_text serial) n clean h.0.0 free,
              set_item-IsTracked (clean_text serial) n clean h.0.1 tracked,
            ),
            λ z out.
                set_item-values (clean_text serial) n z clean (h.1 z (ground arith)) (ground arith),
          ))
        (λ e. h)

  clean_positions-Kept :
      (mapping : TextDict J) (kept : Positions × List ℕ)
      → Kept kept
      → Kept (clean_positions J as_dict to_int to_str mapping kept)
  clean_positions-Kept [] kept h = h
  clean_positions-Kept ((serial, slot) ∷ mapping) kept h =
      clean_positions-Kept mapping _ (clean_entry-Kept serial (to_int slot) kept h)

  abbrev pub AreStable : TextDict Positions → Type 0
  AreStable = All (λ e. IsStable (mapping_of e.1))

  set_item-AreStable :
      (k : Text) (p : Positions) (d : TextDict Positions)
      → IsStable (mapping_of p)
      → AreStable d
      → AreStable (set_item k p d)
  set_item-AreStable k p [] s h = (s, tt)
  set_item-AreStable k p ((j, q) ∷ d) s h =
      if_keeps AreStable (is_text k j) (s, h.1) (h.0, set_item-AreStable k p d s h.1)

  add_positions-AreStable :
      (device_id : Text) (clean : Positions) (d : TextDict Positions)
      → IsStable (mapping_of clean)
      → AreStable d
      → AreStable (add_positions J as_dict to_int to_str device_id clean d)
  add_positions-AreStable device_id [] d s h = h
  add_positions-AreStable device_id (e ∷ clean) d s h =
      set_item-AreStable device_id (e ∷ clean) d s h

  device_positions-AreStable :
      (device_id : Text) (mapping : Option (TextDict J)) (d : TextDict Positions)
      → AreStable d
      → AreStable (device_positions J as_dict to_int to_str device_id mapping d)
  device_positions-AreStable device_id none d h = h
  device_positions-AreStable device_id (some mapping) d h =
      add_positions-AreStable device_id _ d
        (clean_positions-Kept mapping ([], []) ((tt, tt), λ z out. refl)).0 h

  all_positions-AreStable :
      (raw : TextDict J) (d : TextDict Positions)
      → AreStable d
      → AreStable (all_positions J as_dict to_int to_str raw d)
  all_positions-AreStable [] d h = h
  all_positions-AreStable ((device_id, mapping) ∷ raw) d h =
      all_positions-AreStable raw _ (device_positions-AreStable device_id (as_dict mapping) d h)

  positions_of-AreStable :
      (raw : Option (TextDict J)) → AreStable (positions_of J as_dict to_int to_str raw)
  positions_of-AreStable none = tt
  positions_of-AreStable (some raw) = all_positions-AreStable raw [] tt

  -- Whatever is read, no OSError passes unless the file cannot be read and the caller asked for it, and
  -- each device's packs have different slots, which are 2, 3 or 4.
  pub load_all_positions-AreStable :
      (raise_io_errors : Bool) (file : Reading J)
      → let result = load_all_positions J as_dict to_int to_str raise_io_errors file in
        ((result ≡ os_error) × (file ≡ unreadable) × (raise_io_errors ≡ true))
        ⊎ ((positions : TextDict Positions) × (result ≡ returned positions) × AreStable positions)
  unfolding load_all_positions
  load_all_positions-AreStable raise_io_errors missing = inr ([], refl, tt)
  load_all_positions-AreStable true unreadable = inl (refl, refl, refl)
  load_all_positions-AreStable false unreadable = inr ([], refl, tt)
  load_all_positions-AreStable raise_io_errors malformed = inr ([], refl, tt)
  load_all_positions-AreStable raise_io_errors (loaded raw) = inr (
    positions_of J as_dict to_int to_str (as_dict raw),
    refl,
    positions_of-AreStable (as_dict raw),
  )
