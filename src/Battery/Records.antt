-- ===== src/Battery/Records.antt =====
-- `_record_detected_serials` and then `_load_detected_serials`.
use gro_bro.Prelude.{
  ℕ, ◌≡◌, ap, ◌∙◌, Bool, true, false, Option, none, some, List, [], ◌∷◌, map, arith, if◌then◌else◌,
  if_none,
}
use gro_bro.Bytes.{Text}
use gro_bro.Battery.Detected.{
  Serials, load_detected_serials, entry_json, cache_of, is_recorded, record_in, record_cached,
  record_detected_serials, Detected,
}
use gro_bro.Dicts.{TextDict, get_item, IsDict}
use gro_bro.Register.{ℤ, pos}
use gro_bro.Family.{is_text}
use gro_bro.Battery.Files.{Reading}
use gro_bro.Battery.Recorded.{AreDetected, device_serials, load-updated}

-- What is relied on of the JSON file: what is dumped is read again, a dict in an order of its own.
module _ (J : Type 0) (as_dict : J → Option (TextDict J)) (as_list : J → Option (List J))
    (to_int : J → Option ℤ) (to_str : J → Text) (is_null : J → Bool) (same : J → J → Bool)
    (of_dict : TextDict J → J) (of_list : List J → J) (of_text : Text → J) (of_int : ℕ → J)
    (dump_dict : (d : TextDict J)
      → IsDict d
      → (d' : TextDict J) × (as_dict (of_dict d) ≡ some d')
        × IsDict d'
        × ((k : Text) → get_item k d' ≡ get_item k d))
    (dump_list : (js : List J) → as_list (of_list js) ≡ some js)
    (dump_text : (t : Text) → (to_str (of_text t) ≡ t) × (is_null (of_text t) ≡ false))
    (dump_int : (n : ℕ) → to_int (of_int n) ≡ some (pos n)) where
  abbrev entry : ℕ × Text → J
  entry = entry_json J as_dict as_list to_int to_str is_null same of_dict of_list of_text of_int

  abbrev load : Reading J → TextDict Serials
  load = load_detected_serials J as_dict as_list to_int to_str is_null

  abbrev pub State : Type 0
  State = Detected J as_dict as_list to_int to_str is_null

  abbrev pub recorded : Text → Serials → Bool → State → State
  recorded =
      record_detected_serials J as_dict as_list to_int to_str is_null same of_dict of_list of_text
        of_int

  -- The cache, or what the file gives for it.
  abbrev pub known_cache : Option (TextDict J) → Reading J → Option (TextDict J)
  known_cache (some cache) file = some cache
  known_cache none file =
      cache_of J as_dict as_list to_int to_str is_null same of_dict of_list of_text of_int file

  abbrev pub is_known : Serials → Text → TextDict J → Bool
  is_known serials i cache =
      is_recorded J as_dict as_list to_int to_str is_null same of_dict of_list of_text of_int
        (of_list (map entry serials)) (get_item i cache)

  record_in-load :
      (i k : Text) (e : ℕ × Text) (serials : Serials) (cache : TextDict J) (s : State)
      → IsDict cache
      → AreDetected [] (e ∷ serials)
      → is_known (e ∷ serials) i cache ≡ false
      → get_item k (
          load
            (record_in J as_dict as_list to_int to_str is_null same of_dict of_list of_text of_int i
              (of_list (map entry (e ∷ serials)))
              true
              cache
              s).file)
        ≡ (if is_text k i
            then some (e ∷ serials)
            else device_serials J as_dict as_list to_int to_str is_null same of_dict of_list of_text
                of_int dump_dict dump_list dump_text dump_int
                (get_item k cache))
  record_in-load i k e serials cache s h good new =
      ap {A = State} (λ r. get_item k (load r.file))
        (if_none
          (record {
            cache = some cache;
            failures = s.failures;
            read_failed = s.read_failed;
            file = s.file;
          })
          new)
      ∙ load-updated J as_dict as_list to_int to_str is_null same of_dict of_list of_text of_int
          dump_dict dump_list dump_text dump_int i k e serials cache h good

  record_cached-load :
      (i k : Text) (e : ℕ × Text) (serials : Serials) (o : Option (TextDict J)) (cache : TextDict J)
      (s : State)
      → known_cache o s.file ≡ some cache
      → IsDict cache
      → AreDetected [] (e ∷ serials)
      → is_known (e ∷ serials) i cache ≡ false
      → get_item k (
          load
            (record_cached J as_dict as_list to_int to_str is_null same of_dict of_list of_text
              of_int i
              (of_list (map entry (e ∷ serials)))
              true
              o
              s).file)
        ≡ (if is_text k i
            then some (e ∷ serials)
            else device_serials J as_dict as_list to_int to_str is_null same of_dict of_list of_text
                of_int dump_dict dump_list dump_text dump_int
                (get_item k cache))
  record_cached-load i k e serials (some c) cache s eq h good new =
      let same_cache : c ≡ cache = ground arith in
      rw same_cache (record_in-load i k e serials cache s h good new)
  record_cached-load i k e serials none cache s eq h good new = rw eq (
      record_in-load i k e serials cache
        (record { cache = some cache; failures = s.failures; read_failed = false; file = s.file }) h
        good new)

  -- A device's reported packs have different, plausible serial numbers and the slots 2, 3 and 4, the cache
  -- or the file that is read in its place has something else for the device, and the write succeeds: the
  -- file that is written is loaded with just these packs for the device, and with what the cache gives
  -- for each other device.
  pub record_detected_serials-load :
      (i k : Text) (e : ℕ × Text) (serials : Serials) (cache : TextDict J) (s : State)
      → known_cache s.cache s.file ≡ some cache
      → IsDict cache
      → AreDetected [] (e ∷ serials)
      → is_known (e ∷ serials) i cache ≡ false
      → get_item k (load (recorded i (e ∷ serials) true s).file) ≡ (
          if is_text k i
          then some (e ∷ serials)
          else device_serials J as_dict as_list to_int to_str is_null same of_dict of_list of_text
              of_int dump_dict dump_list dump_text dump_int
              (get_item k cache))
  unfolding record_detected_serials
  record_detected_serials-load i k e serials cache s known h good new =
      record_cached-load i k e serials s.cache cache s known h good new
