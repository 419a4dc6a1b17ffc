-- ===== src/Battery/Detected.antt =====
-- The packs that were reported last, in `battery_detected.json`: `_record_detected_serials` and
-- `_load_detected_serials`. JSON values are a parameter, with what the code asks of them and `==`.
use gro_bro.Prelude.{
  ℕ, Bool, true, false, not, ◌&&◌, Option, none, some, List, [], ◌∷◌, map, if◌then◌else◌,
}
use gro_bro.Register.{ℤ, pos, negsuc}
use gro_bro.Bytes.{Text}
use gro_bro.Dicts.{codes, TextDict, get_item, set_item}
use gro_bro.Battery.Files.{to_slot, Reading, missing, unreadable, malformed, loaded}
use gro_bro.Battery.Payload.{is_empty}
use gro_bro.Battery.Serials.{clean_text, is_plausible_serial}
use gro_bro.Family.{is_text, has_text}
use gro_bro.Battery.Slots.{tracked_slots, contains}

-- slots and serials
abbrev pub Serials : Type 0
Serials = List (ℕ × Text)

abbrev pub has_slot : ℤ → Bool
has_slot (pos n) = contains n tracked_slots
has_slot (negsuc n) = false

abbrev pub without_text : Text → List Text → List Text
without_text t [] = []
without_text t (u ∷ us) = let rest = without_text t us in if is_text t u then rest else u ∷ rest

module _ (J : Type 0) (as_dict : J → Option (TextDict J)) (as_list : J → Option (List J))
    (to_int : J → Option ℤ) (to_str : J → Text) (is_null : J → Bool) where
  -- `_clean_serial_part(entry.get("serial"))`
  abbrev pub serial_of : Option J → Text
  serial_of none = []
  serial_of (some value) = if is_null value then [] else clean_text (to_str value)

  -- `int(entry.get("physical_slot"))`; none is an error.
  abbrev pub slot_number : Option J → Option ℤ
  slot_number none = none
  slot_number (some value) = to_int value

  abbrev pub kept_pair : List Text → Text → Option ℤ → Option (ℕ × Text)
  kept_pair seen serial none = none
  kept_pair seen serial (some n) =
      if is_plausible_serial serial && (has_slot n && not (has_text serial seen))
      then some (to_slot n, serial)
      else none

  abbrev pub kept_entry : List Text → Option (TextDict J) → Option (ℕ × Text)
  kept_entry seen none = none
  kept_entry seen (some entry) =
      kept_pair seen (serial_of (get_item (codes "serial") entry))
        (slot_number (get_item (codes "physical_slot") entry))

  abbrev pub add_kept : Option (ℕ × Text) → Serials → Serials
  add_kept none rest = rest
  add_kept (some kept) rest = kept ∷ rest

  abbrev pub see : Option (ℕ × Text) → List Text → List Text
  see none seen = seen
  see (some (slot, serial)) seen = serial ∷ seen

  abbrev pub clean_entries : List J → List Text → Serials
  clean_entries [] seen = []
  clean_entries (entry ∷ entries) seen =
      let kept = kept_entry seen (as_dict entry) in
      add_kept kept (clean_entries entries (see kept seen))

  -- `if clean_entries: result[device_id] = clean_entries`
  abbrev pub add_detected : Text → Serials → TextDict Serials → TextDict Serials
  add_detected device_id [] result = result
  add_detected device_id (e ∷ clean) result = set_item device_id (e ∷ clean) result

  abbrev pub device_detected : Text → Option (List J) → TextDict Serials → TextDict Serials
  device_detected device_id none result = result
  device_detected device_id (some entries) result =
      add_detected device_id (clean_entries entries []) result

  abbrev pub all_detected : TextDict J → TextDict Serials → TextDict Serials
  all_detected [] result = result
  all_detected ((device_id, entries) ∷ raw) result =
      all_detected raw (device_detected device_id (as_list entries) result)

  abbrev pub detected_of : Option (TextDict J) → TextDict Serials
  detected_of none = []
  detected_of (some raw) = all_detected raw []

  unfoldable pub load_detected_serials : Reading J → TextDict Serials
  load_detected_serials (loaded raw) = detected_of (as_dict raw)
  load_detected_serials _ = []

  -- `_battery_detected_serials`, `_battery_detected_failures` and `_battery_detected_read_failed` of the
  -- client, with what reading the file gives.
  pub record Detected : Type 0 where
    pub cache : Option (TextDict J)
    pub failures : List Text
    pub read_failed : Bool
    pub file : Reading J

  module _ (same : J → J → Bool) (of_dict : TextDict J → J) (of_list : List J → J)
      (of_text : Text → J) (of_int : ℕ → J) where
    abbrev pub entry_json : ℕ × Text → J
    entry_json (slot, serial) =
        of_dict ((codes "physical_slot", of_int slot) ∷ (codes "serial", of_text serial) ∷ [])

    -- The serials come in the order of their slots.
    abbrev pub entries_json : Serials → J
    entries_json serials = of_list (map entry_json serials)

    abbrev pub or_empty : Option (TextDict J) → TextDict J
    or_empty none = []
    or_empty (some raw) = raw

    -- The cache that a reading gives; none is OSError.
    abbrev pub cache_of : Reading J → Option (TextDict J)
    cache_of missing = some []
    cache_of unreadable = none
    cache_of malformed = some []
    cache_of (loaded raw) = some (or_empty (as_dict raw))

    abbrev pub is_recorded : J → Option J → Bool
    is_recorded entries none = false
    is_recorded entries (some cached) = same cached entries

    abbrev pub save_detected : Text → Bool → TextDict J → TextDict J → Detected → Detected
    save_detected device_id can_write cache updated s =
        if can_write
        then record {
          cache = some updated;
          failures = without_text device_id s.failures;
          read_failed = s.read_failed;
          file = loaded (of_dict updated);
        }
        else record {
          cache = some cache;
          failures = device_id ∷ without_text device_id s.failures;
          read_failed = s.read_failed;
          file = s.file;
        }

    abbrev pub record_in : Text → J → Bool → TextDict J → Detected → Detected
    record_in device_id entries can_write cache s =
        if is_recorded entries (get_item device_id cache)
        then record {
          cache = some cache;
          failures = s.failures;
          read_failed = s.read_failed;
          file = s.file;
        }
        else save_detected device_id can_write cache (set_item device_id entries cache) s

    -- A cache that was read now, or could not be read.
    abbrev pub record_read : Text → J → Bool → Option (TextDict J) → Detected → Detected
    record_read device_id entries can_write none s = record {
      cache = none;
      failures = s.failures;
      read_failed = true;
      file = s.file;
    }
    record_read device_id entries can_write (some cache) s =
        let read : Detected = record {
          cache = some cache;
          failures = s.failures;
          read_failed = false;
          file = s.file;
        } in
        record_in device_id entries can_write cache read

    abbrev pub record_cached : Text → J → Bool → Option (TextDict J) → Detected → Detected
    record_cached device_id entries can_write none s =
        record_read device_id entries can_write (cache_of s.file) s
    record_cached device_id entries can_write (some cache) s =
        record_in device_id entries can_write cache s

    unfoldable pub record_detected_serials : Text → Serials → Bool → Detected → Detected
    record_detected_serials device_id serials can_write s =
        if is_empty serials
        then s
        else record_cached device_id (entries_json serials) can_write s.cache s
