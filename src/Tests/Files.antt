-- ===== src/Tests/Files.antt =====
-- Files of battery positions: one with a slot that stands twice, manual choices that are saved, and
-- packs that are recorded.
use gro_bro.Prelude.{◌≡◌, refl, ◌⊎◌, Bool, true, false, none, some, [], ◌∷◌}
use gro_bro.Dicts.{codes, TextDict, get_item}
use gro_bro.Battery.Saves.{is_valid, IsSaved, save_manual_assignments-load}
use gro_bro.Battery.Files.{
  Positions, load_all_positions, save_manual_assignments, Reading, unreadable, loaded, returned,
  os_error, Saving, value_error, read_error,
}
use gro_bro.Family.{is_text}
use gro_bro.Bytes.{Text}
use gro_bro.Tests.Json.{
  as_dict, of_dict, to_int, to_str, as_list, of_list, is_null, dump_list, read_dict, dump_dict,
  Json, word, number, array, object, stop, end, field,
}
use gro_bro.Battery.Serials.{is_plausible_serial}
use gro_bro.Client.Topic.{strip_space}
use gro_bro.Battery.Loaded.{AreStable, load_all_positions-AreStable}
use gro_bro.Battery.Recorded.{AreDetected}
use gro_bro.Battery.Records.{record_detected_serials-load}
use gro_bro.Battery.Detected.{Serials, load_detected_serials, record_detected_serials, Detected}

abbrev device : Text
device = codes "0PVP0001"

abbrev choices : TextDict Json
choices = (codes "2", word (codes "AAAA000001")) ∷ (codes "3", word (codes " __empty__ ")) ∷ []

abbrev file : Reading Json
file = loaded (
    object
      (field (codes "0PVP0002") (object (field (codes "4") (word (codes "BBBB000002")) end)) end))

abbrev saving : Saving Json as_dict to_int to_str
saving = save_manual_assignments Json as_dict to_int to_str of_dict word device choices file

-- The save of a file that can be read, with one serial number, is not refused.
saving-valid :
    is_valid Json as_dict to_int to_str of_dict word dump_dict (λ t. refl) read_dict choices ≡ true
saving-valid = refl

save_manual_assignments-load_example :
    (((is_text (strip_space device) [] ≡ true)
        ⊎ (is_valid Json as_dict to_int to_str of_dict word dump_dict (λ t. refl) read_dict choices
            ≡ false))
      × (saving ≡ value_error))
    ⊎ ((is_text (strip_space device) [] ≡ false)
        × (is_valid Json as_dict to_int to_str of_dict word dump_dict (λ t. refl) read_dict choices
            ≡ true)
        × (((file ≡ unreadable) × (saving ≡ read_error))
            ⊎ IsSaved Json as_dict to_int to_str of_dict word dump_dict
                (λ t. refl)
                read_dict
                (strip_space device)
                choices
                file
                false
                saving))
save_manual_assignments-load_example =
    save_manual_assignments-load Json as_dict to_int to_str of_dict word dump_dict (λ t. refl)
      read_dict device choices file false

abbrev positions_file : Reading Json
positions_file = loaded (
    object (
      field device
        (object (
          field (codes " AAAA000001 ") (word (codes "3"))
            (field (codes "BBBB000002") (word (codes "3")) end)))
        end))

load_all_positions-AreStable_example :
    ((load_all_positions Json as_dict to_int to_str true positions_file ≡ os_error)
      × (positions_file ≡ unreadable)
      × (true ≡ true))
    ⊎ ((positions : TextDict Positions) × (load_all_positions Json as_dict to_int to_str true
            positions_file
          ≡ returned positions)
        × AreStable Json as_dict to_int to_str positions)
load_all_positions-AreStable_example =
    load_all_positions-AreStable Json as_dict to_int to_str true positions_file

-- Two packs that are recorded where the file has another device.
abbrev detected : Detected Json as_dict as_list to_int to_str is_null
detected = record {
  cache = none;
  failures = [];
  read_failed = false;
  file = loaded (object (field (codes "0PVP0002") (array stop) end));
}

abbrev never_same : Json → Json → Bool
never_same i j = false

abbrev packs_detected : Serials
packs_detected = (3, codes "BBBB000002") ∷ []

packs-AreDetected : AreDetected [] ((2, codes "AAAA000001") ∷ packs_detected)
unfolding is_plausible_serial
packs-AreDetected = (refl, refl, refl, (refl, refl, refl, tt))

record_detected_serials-load_example :
    get_item device (
      load_detected_serials Json as_dict as_list to_int to_str is_null
        (record_detected_serials Json as_dict as_list to_int to_str is_null never_same of_dict
          of_list word number device
          ((2, codes "AAAA000001") ∷ packs_detected)
          true
          detected).file)
    ≡ some ((2, codes "AAAA000001") ∷ packs_detected)
record_detected_serials-load_example =
    record_detected_serials-load Json as_dict as_list to_int to_str is_null never_same of_dict
      of_list word number dump_dict dump_list (λ t. (refl, refl)) (λ n. refl) device device
      (2, codes "AAAA000001") packs_detected ((codes "0PVP0002", array stop) ∷ []) detected refl
      (refl, tt) packs-AreDetected refl
