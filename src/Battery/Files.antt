-- ===== src/Battery/Files.antt =====
-- The battery files of grobro/ha/battery_position.py: what is kept of the JSON that is read, and what
-- `save_manual_assignments` writes. JSON values are a parameter, with the tests and conversions that
-- the code makes: a dict or not, `int` or its error, and `str`.
use gro_bro.Prelude.{
  ◌>>=◌, ℕ, Bool, true, false, not, ◌&&◌, ◌||◌, Option, none, some, List, [], ◌∷◌, if◌then◌else◌,
}
use gro_bro.Register.{ℤ, pos, negsuc}
use gro_bro.Dicts.{TextDict, get_item, set_item, del_item}
use gro_bro.Bytes.{Text}
use gro_bro.Client.Topic.{strip_space, decimal}
use gro_bro.Battery.Payload.{auto_assignment, empty_assignment}
use gro_bro.Family.{is_text, has_text}
use gro_bro.Battery.Slots.{tracked_slots, contains}
use gro_bro.Battery.Serials.{clean_text, is_plausible_serial}

-- What opening and parsing a file gives: no file, OSError, an error of the JSON, or a value.
pub data Reading (J : Type 0) : Type 0 where
  missing : Reading J
  unreadable : Reading J
  malformed : Reading J
  loaded : J → Reading J

-- What a call returns, or the OSError that it lets through.
pub data Call {ℓ} (A : Type ℓ) : Type ℓ where
  returned : A → Call A
  os_error : Call A

abbrev pub or_raise {ℓ} : {A : Type ℓ} → Bool → A → Call A
or_raise raise_io_errors a = if raise_io_errors then os_error else returned a

-- serials to slots
abbrev pub Positions : Type 0
Positions = TextDict ℕ

-- slots to choices
abbrev pub Assignments : Type 0
Assignments = List (ℕ × Text)

-- `slot_number in _TRACKED_SLOTS and slot_number not in used_slots`
abbrev pub is_new_slot : ℤ → List ℕ → Bool
is_new_slot (pos n) used_slots = contains n tracked_slots && not (contains n used_slots)
is_new_slot (negsuc n) used_slots = false

abbrev pub to_slot : ℤ → ℕ
to_slot (pos n) = n
to_slot (negsuc n) = 0

module _ (J : Type 0) (as_dict : J → Option (TextDict J)) (to_int : J → Option ℤ)
    (to_str : J → Text) where
  -- One entry of a device's mapping; `none` is an `int` that raises.
  abbrev pub clean_entry : Text → Option ℤ → Positions × List ℕ → Positions × List ℕ
  clean_entry serial none kept = kept
  clean_entry serial (some slot_number) (clean, used_slots) =
      let serial_text = clean_text serial in
      if not (is_text serial_text []) && is_new_slot slot_number used_slots
      then (set_item serial_text (to_slot slot_number) clean, to_slot slot_number ∷ used_slots)
      else (clean, used_slots)

  abbrev pub clean_positions : TextDict J → Positions × List ℕ → Positions × List ℕ
  clean_positions [] kept = kept
  clean_positions ((serial, slot) ∷ mapping) kept =
      clean_positions mapping (clean_entry serial (to_int slot) kept)

  -- `if clean: result[device_id] = clean`
  abbrev pub add_positions : Text → Positions → TextDict Positions → TextDict Positions
  add_positions device_id [] result = result
  add_positions device_id (e ∷ clean) result = set_item device_id (e ∷ clean) result

  abbrev pub device_positions : Text → Option (TextDict J) → TextDict Positions → TextDict Positions
  device_positions device_id none result = result
  device_positions device_id (some mapping) result =
      add_positions device_id (clean_positions mapping ([], [])).0 result

  abbrev pub all_positions : TextDict J → TextDict Positions → TextDict Positions
  all_positions [] result = result
  all_positions ((device_id, mapping) ∷ raw) result =
      all_positions raw (device_positions device_id (as_dict mapping) result)

  abbrev pub positions_of : Option (TextDict J) → TextDict Positions
  positions_of none = []
  positions_of (some raw) = all_positions raw []

  unfoldable pub load_all_positions : Bool → Reading J → Call (TextDict Positions)
  load_all_positions raise_io_errors missing = returned []
  load_all_positions raise_io_errors unreadable = or_raise raise_io_errors []
  load_all_positions raise_io_errors malformed = returned []
  load_all_positions raise_io_errors (loaded raw) = returned (positions_of (as_dict raw))

  -- `assignments.get(str(slot), AUTO_ASSIGNMENT)` as a text, stripped
  abbrev pub text_or_auto : Option J → Text
  text_or_auto none = auto_assignment
  text_or_auto (some value) = to_str value

  abbrev pub choice_text : TextDict J → ℕ → Text
  choice_text assignments slot = strip_space (text_or_auto (get_item (decimal slot) assignments))

  -- The explicit serials behind one more choice; none is one that is implausible or stands twice.
  abbrev pub add_explicit : List Text → Text → Option (List Text)
  add_explicit explicit_serials value =
      if is_text value auto_assignment || is_text value empty_assignment
      then some explicit_serials
      else if not (is_plausible_serial value) || has_text value explicit_serials
      then none
      else some (value ∷ explicit_serials)

  abbrev pub clean_choices : TextDict J → List Text → List ℕ → Option Assignments
  clean_choices assignments explicit_serials [] = some []
  clean_choices assignments explicit_serials (slot ∷ slots) =
      add_explicit explicit_serials (choice_text assignments slot) >>= λ explicit'.
      clean_choices assignments explicit' slots >>= λ clean.
      some ((slot, choice_text assignments slot) ∷ clean)

  abbrev pub add_valid : Text → Option Assignments → TextDict Assignments → TextDict Assignments
  add_valid device_id none result = result
  add_valid device_id (some clean) result = set_item device_id clean result

  abbrev pub device_choices :
      Text → Option (TextDict J) → TextDict Assignments → TextDict Assignments
  device_choices device_id none result = result
  device_choices device_id (some assignments) result =
      add_valid device_id (clean_choices assignments [] tracked_slots) result

  abbrev pub all_choices : TextDict J → TextDict Assignments → TextDict Assignments
  all_choices [] result = result
  all_choices ((device_id, assignments) ∷ raw) result =
      all_choices raw (device_choices device_id (as_dict assignments) result)

  abbrev pub choices_of : Option (TextDict J) → TextDict Assignments
  choices_of none = []
  choices_of (some raw) = all_choices raw []

  unfoldable pub load_manual_positions : Bool → Reading J → Call (TextDict Assignments)
  load_manual_positions raise_io_errors missing = returned []
  load_manual_positions raise_io_errors unreadable = or_raise raise_io_errors []
  load_manual_positions raise_io_errors malformed = returned []
  load_manual_positions raise_io_errors (loaded raw) = returned (choices_of (as_dict raw))

  abbrev pub all_automatic : Assignments → Bool
  all_automatic [] = true
  all_automatic ((slot, value) ∷ clean) = is_text value auto_assignment && all_automatic clean

  -- How saving ends: ValueError, OSError of the read, or what is written.
  pub data Saving : Type 0 where
    value_error : Saving
    read_error : Saving
    written : J → Saving

  module _ (of_dict : TextDict J → J) (of_text : Text → J) where
    abbrev pub dump_assignments : Assignments → TextDict J
    dump_assignments [] = []
    dump_assignments ((slot, value) ∷ clean) =
        (decimal slot, of_text value) ∷ dump_assignments clean

    -- `_save_manual_positions`: the JSON that it writes
    abbrev pub dump_positions : TextDict Assignments → TextDict J
    dump_positions [] = []
    dump_positions ((device_id, clean) ∷ positions) =
        (device_id, of_dict (dump_assignments clean)) ∷ dump_positions positions

    abbrev pub with_choices : Text → Assignments → TextDict Assignments → TextDict Assignments
    with_choices device_id clean all_manual =
        if all_automatic clean
        then del_item device_id all_manual
        else set_item device_id clean all_manual

    abbrev pub save_clean : Text → Assignments → Call (TextDict Assignments) → Saving
    save_clean device_id clean os_error = read_error
    save_clean device_id clean (returned all_manual) =
        written (of_dict (dump_positions (with_choices device_id clean all_manual)))

    abbrev pub save_valid : Text → Option Assignments → Reading J → Saving
    save_valid device_id none file = value_error
    save_valid device_id (some clean) file =
        save_clean device_id clean (load_manual_positions true file)

    unfoldable pub save_manual_assignments : Text → TextDict J → Reading J → Saving
    save_manual_assignments device_id assignments file =
        let name = strip_space device_id in
        if is_text name []
        then value_error
        else save_valid name (clean_choices assignments [] tracked_slots) file
