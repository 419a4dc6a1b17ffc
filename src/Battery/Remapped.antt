-- ===== src/Battery/Remapped.antt =====
-- The maps of all devices: what the loader gives, and that maps that were dumped are loaded as they were.
use gro_bro.Prelude.{
  ℕ, ◌≡◌, refl, ap, subst, ◌∙◌, inl, inr, true, not, ◌&&◌, Option, none, some, List, [], ◌∷◌,
  if◌then◌else◌, Bool-cases, if_keeps, All,
}
use gro_bro.Bytes.{Text}
use gro_bro.Dicts.{is_text_iff, TextDict, get_item, IsDict, set_item-IsDict}
use gro_bro.Register.{ℤ, pos}
use gro_bro.Battery.Stable.{IsStable}
use gro_bro.Battery.Loaded.{mapping_of, load_all_positions-AreStable}
use gro_bro.Battery.Files.{
  Positions, is_new_slot, to_slot, clean_entry, clean_positions, add_positions, device_positions,
  all_positions, positions_of, load_all_positions, Reading, missing, unreadable, malformed, loaded,
  Call, returned,
}
use gro_bro.Battery.Serials.{clean_text, is_plausible_serial}
use gro_bro.Battery.Good.{
  AreGood, mapping_at-set_item, IsStable-IsGood, or_old, or_old-nil, get_item-AreStable,
}
use gro_bro.Battery.Persist.{or_nothing_yet, mapping_at, dump_slots, dump_maps}
use gro_bro.Battery.Reread.{IsGood, dump_slots-IsDict, clean_positions-dumped}
use gro_bro.Family.{is_text}

module _ (J : Type 0) (as_dict : J → Option (TextDict J)) (to_int : J → Option ℤ)
    (to_str : J → Text) where
  abbrev load : Reading J → Call (TextDict Positions)
  load = load_all_positions J as_dict to_int to_str true

  clean_entry-IsDict :
      (serial : Text) (slot : Option ℤ) (kept : Positions × List ℕ)
      → IsDict kept.0
      → IsDict (clean_entry J as_dict to_int to_str serial slot kept).0
  clean_entry-IsDict serial none kept h = h
  clean_entry-IsDict serial (some slot) (clean, used) h =
      if_keeps {A = Positions × List ℕ} (λ r. IsDict r.0)
        (not (is_text (clean_text serial) []) && is_new_slot slot used)
        (set_item-IsDict (clean_text serial) (to_slot slot) clean h) h

  clean_positions-IsDict :
      (mapping : TextDict J) (kept : Positions × List ℕ)
      → IsDict kept.0
      → IsDict (clean_positions J as_dict to_int to_str mapping kept).0
  clean_positions-IsDict [] kept h = h
  clean_positions-IsDict ((serial, slot) ∷ mapping) kept h =
      clean_positions-IsDict mapping _ (clean_entry-IsDict serial (to_int slot) kept h)

  -- What is loaded for a device.
  abbrev dict_at : Option (TextDict J) → Positions
  dict_at none = []
  dict_at (some mapping) = (clean_positions J as_dict to_int to_str mapping ([], [])).0

  abbrev value_at : Option J → Positions
  value_at none = []
  value_at (some j) = dict_at (as_dict j)

  add_positions-at :
      (device_id i : Text) (clean : Positions) (maps : TextDict Positions)
      → mapping_at i (add_positions J as_dict to_int to_str device_id clean maps)
        ≡ (if is_text i device_id then or_old clean (mapping_at i maps) else mapping_at i maps)
  add_positions-at device_id i [] maps = elim (Bool-cases (is_text i device_id)) [
    | inl same ↦ rw same refl
    | inr other ↦ rw other refl
  ]
  add_positions-at device_id i (e ∷ clean) maps = mapping_at-set_item i device_id (e ∷ clean) maps

  device_positions-at :
      (device_id i : Text) (o : Option (TextDict J)) (maps : TextDict Positions)
      → mapping_at i (device_positions J as_dict to_int to_str device_id o maps) ≡ (
          if is_text i device_id then or_old (dict_at o) (mapping_at i maps) else mapping_at i maps)
  device_positions-at device_id i none maps = elim (Bool-cases (is_text i device_id)) [
    | inl same ↦ rw same refl
    | inr other ↦ rw other refl
  ]
  device_positions-at device_id i (some mapping) maps =
      add_positions-at device_id i (dict_at (some mapping)) maps

  all_positions-at :
      (raw : TextDict J) (maps : TextDict Positions) (i : Text)
      → IsDict raw
      → mapping_at i (all_positions J as_dict to_int to_str raw maps)
        ≡ or_old (value_at (get_item i raw)) (mapping_at i maps)
  all_positions-at [] maps i h = refl
  all_positions-at ((device_id, j) ∷ raw) maps i h =
      let next = device_positions J as_dict to_int to_str device_id (as_dict j) maps in
      all_positions-at raw next i h.1 ∙ elim (Bool-cases (is_text i device_id)) [
        | inr other ↦ rw (device_positions-at device_id i (as_dict j) maps, other) refl
        | inl same ↦
            let eq : i ≡ device_id = (is_text_iff i device_id).0 same in
            let gone : get_item i raw ≡ none = rw eq h.0 in
            rw (gone, device_positions-at device_id i (as_dict j) maps, same) refl
      ]

  add_positions-IsDict :
      (device_id : Text) (clean : Positions) (maps : TextDict Positions)
      → IsDict maps
      → IsDict (add_positions J as_dict to_int to_str device_id clean maps)
  add_positions-IsDict device_id [] maps h = h
  add_positions-IsDict device_id (e ∷ clean) maps h = set_item-IsDict device_id (e ∷ clean) maps h

  device_positions-IsDict :
      (device_id : Text) (o : Option (TextDict J)) (maps : TextDict Positions)
      → IsDict maps
      → IsDict (device_positions J as_dict to_int to_str device_id o maps)
  device_positions-IsDict device_id none maps h = h
  device_positions-IsDict device_id (some mapping) maps h = add_positions-IsDict device_id _ maps h

  all_positions-IsDict :
      (raw : TextDict J) (maps : TextDict Positions)
      → IsDict maps
      → IsDict (all_positions J as_dict to_int to_str raw maps)
  all_positions-IsDict [] maps h = h
  all_positions-IsDict ((device_id, j) ∷ raw) maps h =
      all_positions-IsDict raw _ (device_positions-IsDict device_id (as_dict j) maps h)

  dict_at-IsDict : (o : Option (TextDict J)) → IsDict (dict_at o)
  dict_at-IsDict none = tt
  dict_at-IsDict (some mapping) = clean_positions-IsDict mapping ([], []) tt

  value_at-IsDict : (o : Option J) → IsDict (value_at o)
  value_at-IsDict none = tt
  value_at-IsDict (some j) = dict_at-IsDict (as_dict j)

  all_positions-dicts :
      (raw : TextDict J) (i : Text)
      → IsDict raw
      → IsDict (mapping_at i (all_positions J as_dict to_int to_str raw []))
  all_positions-dicts raw i h =
      rw (all_positions-at raw [] i h, or_old-nil (value_at (get_item i raw)))
        (value_at-IsDict (get_item i raw))

  module _ (read_dict : (j : J) (d : TextDict J) → as_dict j ≡ some d → IsDict d) where
    positions_of-dicts :
        (j : J) (o : Option (TextDict J))
        → as_dict j ≡ o
        → IsDict (positions_of J as_dict to_int to_str o)
          × ((i : Text) → IsDict (mapping_at i (positions_of J as_dict to_int to_str o)))
    positions_of-dicts j none e = (tt, λ i. tt)
    positions_of-dicts j (some raw) e =
        (all_positions-IsDict raw [] tt, λ i. all_positions-dicts raw i (read_dict j raw e))

    load-dicts :
        (file : Reading J) (maps : TextDict Positions)
        → load file ≡ returned maps
        → IsDict maps × ((i : Text) → IsDict (mapping_at i maps))
    unfolding load_all_positions
    load-dicts missing maps e =
        let eq : [] ≡ maps = cc in
        subst (λ (m : TextDict Positions). IsDict m × ((i : Text) → IsDict (mapping_at i m))) eq
          (tt, λ i. tt)
    load-dicts unreadable maps e = cc
    load-dicts malformed maps e =
        let eq : [] ≡ maps = cc in
        subst (λ (m : TextDict Positions). IsDict m × ((i : Text) → IsDict (mapping_at i m))) eq
          (tt, λ i. tt)
    load-dicts (loaded raw) maps e =
        let eq : positions_of J as_dict to_int to_str (as_dict raw) ≡ maps = cc in
        subst (λ (m : TextDict Positions). IsDict m × ((i : Text) → IsDict (mapping_at i m))) eq
          (positions_of-dicts raw (as_dict raw) refl)

    load-IsStable :
        (file : Reading J) (maps : TextDict Positions)
        → load file ≡ returned maps
        → All (λ e. IsStable (mapping_of e.1)) maps
    load-IsStable file maps e =
        elim (load_all_positions-AreStable J as_dict to_int to_str true file) [
          | inl (failed, other, raises) ↦ cc
          | inr (positions, made, stable) ↦
              let eq : positions ≡ maps = cc in
              subst (λ (m : TextDict Positions). All (λ e. IsStable (mapping_of e.1)) m) eq stable
        ]

    -- What is loaded is good, where its serial numbers are plausible.
    pub load-AreGood :
        (file : Reading J) (maps : TextDict Positions)
        → load file ≡ returned maps
        → ((i k : Text) (s : ℕ)
            → get_item k (mapping_at i maps) ≡ some s
            → is_plausible_serial k ≡ true)
        → AreGood maps
    load-AreGood file maps e plausible =
        let (dict, dicts) = load-dicts file maps e in
        (
          dict,
          λ i.
              IsStable-IsGood (mapping_at i maps) (dicts i)
                (get_item-AreStable maps i (load-IsStable file maps e)) (plausible i),
        )

    module _ (of_dict : TextDict J → J) (of_int : ℕ → J)
        (dump_dict : (d : TextDict J)
          → IsDict d
          → (d' : TextDict J) × (as_dict (of_dict d) ≡ some d')
            × IsDict d'
            × ((k : Text) → get_item k d' ≡ get_item k d))
        (dump_int : (n : ℕ) → to_int (of_int n) ≡ some (pos n)) where
      abbrev dump : TextDict Positions → TextDict J
      dump = dump_maps J as_dict to_int to_str of_dict of_int

      abbrev slots : Positions → TextDict J
      slots = dump_slots J as_dict to_int to_str of_dict of_int

      abbrev dumped : Option Positions → Option J
      dumped none = none
      dumped (some mapping) = some (of_dict (slots mapping))

      get_item-dump :
          (maps : TextDict Positions) (i : Text) → get_item i (dump maps) ≡ dumped (get_item i maps)
      get_item-dump [] i = refl
      get_item-dump ((j, mapping) ∷ maps) i = elim (Bool-cases (is_text i j)) [
        | inl same ↦ rw same refl
        | inr other ↦ rw other (get_item-dump maps i)
      ]

      dump-IsDict : (maps : TextDict Positions) → IsDict maps → IsDict (dump maps)
      dump-IsDict [] h = tt
      dump-IsDict ((i, mapping) ∷ maps) h =
          (get_item-dump maps i ∙ ap dumped h.0, dump-IsDict maps h.1)

      value_at-dumped :
          (o : Option Positions) (k : Text)
          → IsGood (or_nothing_yet o)
          → get_item k (value_at (dumped o)) ≡ get_item k (or_nothing_yet o)
      value_at-dumped none k good = refl
      value_at-dumped (some mapping) k good =
          let (d, read, dict, same) =
            dump_dict (slots mapping)
              (dump_slots-IsDict J as_dict to_int to_str of_dict of_int dump_int mapping good.0) in
          ap (λ (o : Option (TextDict J)). get_item k (dict_at o)) read
          ∙ clean_positions-dumped J as_dict to_int to_str of_dict of_int dump_int mapping d k good
              dict same

      -- Good maps that were dumped are loaded as they were.
      pub dump_maps-load :
          (maps : TextDict Positions)
          → AreGood maps
          → (after : TextDict Positions) × (load (loaded (of_dict (dump maps))) ≡ returned after)
            × ((i k : Text) → get_item k (mapping_at i after) ≡ get_item k (mapping_at i maps))
      unfolding load_all_positions
      dump_maps-load maps good =
          let (d, read, dict, same) = dump_dict (dump maps) (dump-IsDict maps good.0) in
          (
            all_positions J as_dict to_int to_str d [],
            rw read refl,
            λ i k.
                ap (get_item k) (
                  all_positions-at d [] i dict
                  ∙ or_old-nil (value_at (get_item i d))
                  ∙ ap value_at (same i ∙ get_item-dump maps i))
                ∙ value_at-dumped (get_item i maps) k (good.1 i),
          )
