-- ===== src/Battery/Saves.antt =====
-- `save_manual_assignments` and then `load_manual_positions`.
use gro_bro.Prelude.{
  ℕ, ◌≡◌, refl, sym, ap, ◌⊎◌, subst, ◌∙◌, inl, inr, Bool, true, false, Option, none, some, List, [],
  ◌∷◌, arith, if◌then◌else◌, Bool-cases,
}
use gro_bro.Dicts.{codes, TextDict, get_item, IsDict}
use gro_bro.Register.{ℤ}
use gro_bro.Bytes.{Text}
use gro_bro.Battery.Asked.{asked, are_valid, choices_kept, clean_choices-are_valid}
use gro_bro.Battery.Files.{
  Assignments, clean_choices, load_manual_positions, dump_positions, with_choices, save_clean,
  save_manual_assignments, Reading, loaded, missing, unreadable, malformed, Call, returned,
  os_error, value_error, read_error, Saving, written,
}
use gro_bro.Client.Topic.{strip_space}
use gro_bro.Battery.Slots.{tracked_slots}
use gro_bro.Family.{is_text}
use gro_bro.Battery.Reloaded.{
  load_manual_positions-Reloads, saved, with_choices-lookup, with_choices-Reloads,
  dump_positions-load,
}

-- What is relied on of the JSON files: a dict that is dumped is read again as a dict of the same items,
-- in an order of its own, a text is read as it was, and no dict that is read has a key twice.
module _ (J : Type 0) (as_dict : J → Option (TextDict J)) (to_int : J → Option ℤ)
    (to_str : J → Text) (of_dict : TextDict J → J) (of_text : Text → J)
    (dump_dict : (d : TextDict J)
      → IsDict d
      → (d' : TextDict J) × (as_dict (of_dict d) ≡ some d')
        × IsDict d'
        × ((k : Text) → get_item k d' ≡ get_item k d))
    (dump_text : (t : Text) → to_str (of_text t) ≡ t)
    (read_dict : (j : J) (d : TextDict J) → as_dict j ≡ some d → IsDict d) where
  abbrev clean_of : TextDict J → List Text → List ℕ → Option Assignments
  clean_of = clean_choices J as_dict to_int to_str

  abbrev dump_all : TextDict Assignments → TextDict J
  dump_all = dump_positions J as_dict to_int to_str of_dict of_text

  abbrev load : Bool → Reading J → Call (TextDict Assignments)
  load = load_manual_positions J as_dict to_int to_str

  abbrev asked_for : Text → TextDict J → Text
  asked_for = asked J as_dict to_int to_str

  abbrev save : Text → TextDict J → Reading J → Saving J as_dict to_int to_str
  save = save_manual_assignments J as_dict to_int to_str of_dict of_text

  -- The choices of all slots are valid.
  abbrev pub is_valid : TextDict J → Bool
  is_valid assignments =
      are_valid (asked_for (codes "2") assignments) (asked_for (codes "3") assignments)
        (asked_for (codes "4") assignments)

  abbrev taken_of : TextDict J → Assignments
  taken_of assignments =
      (2, asked_for (codes "2") assignments)
      ∷ (3, asked_for (codes "3") assignments)
      ∷ (4, asked_for (codes "4") assignments)
      ∷ []

  -- What the device is left with.
  abbrev pub kept_of : TextDict J → Option Assignments
  kept_of assignments =
      choices_kept (asked_for (codes "2") assignments) (asked_for (codes "3") assignments)
        (asked_for (codes "4") assignments)

  -- A JSON is written, which is loaded as the choices that the file had, with those of the device
  -- replaced.
  abbrev pub IsSaved :
      Text → TextDict J → Reading J → Bool → Saving J as_dict to_int to_str → Type 0
  IsSaved name assignments file raise_io_errors result =
      (j : J) × (before : TextDict Assignments) × (after : TextDict Assignments) × (result
        ≡ written j)
      × (load true file ≡ returned before)
      × (load raise_io_errors (loaded j) ≡ returned after)
      × ((k : Text)
          → get_item k after ≡ (if is_text k name then kept_of assignments else get_item k before))

  taken :
      (assignments : TextDict J)
      → is_valid assignments ≡ true
      → clean_of assignments [] tracked_slots ≡ some (taken_of assignments)
  taken assignments valid =
      clean_choices-are_valid J as_dict to_int to_str assignments ∙ rw valid refl

  load-readable :
      (file : Reading J)
      → ((file ≡ unreadable) × (load true file ≡ os_error))
        ⊎ ((before : TextDict Assignments) × (load true file ≡ returned before))
  unfolding load_manual_positions
  load-readable missing = inr ([], refl)
  load-readable unreadable = inl (refl, refl)
  load-readable malformed = inr ([], refl)
  load-readable (loaded j) = inr (_, refl)

  saved-kept :
      (assignments : TextDict J)
      → saved J as_dict to_int to_str of_dict of_text dump_dict dump_text read_dict
          (taken_of assignments)
        ≡ kept_of assignments
  saved-kept assignments = ground arith

  save_clean-IsSaved :
      (name : Text) (assignments : TextDict J) (file : Reading J) (before : TextDict Assignments)
      (raise_io_errors : Bool)
      → is_valid assignments ≡ true
      → load true file ≡ returned before
      → IsSaved name assignments file raise_io_errors (
          save_clean J as_dict to_int to_str of_dict of_text name
            (taken_of assignments)
            (returned before))
  save_clean-IsSaved name assignments file before raise_io_errors valid l =
      let clean = taken_of assignments in
      let positions = with_choices J as_dict to_int to_str of_dict of_text name clean before in
      let (after, read, same) =
        dump_positions-load J as_dict to_int to_str of_dict of_text dump_dict dump_text read_dict
          raise_io_errors positions
          (with_choices-Reloads J as_dict to_int to_str of_dict of_text dump_dict dump_text
            read_dict name assignments clean before (taken assignments valid)
            (load_manual_positions-Reloads J as_dict to_int to_str of_dict of_text dump_dict
              dump_text read_dict file before l)) in
      (
        of_dict (dump_all positions),
        before,
        after,
        refl,
        l,
        read,
        λ k.
            same k
            ∙ with_choices-lookup J as_dict to_int to_str of_dict of_text dump_dict dump_text
                read_dict name k clean before
            ∙ ap (λ (o : Option Assignments). if is_text k name then o else get_item k before)
                (saved-kept assignments),
      )

  save-valid :
      (device_id : Text) (assignments : TextDict J) (file : Reading J)
      → is_text (strip_space device_id) [] ≡ false
      → is_valid assignments ≡ true
      → save device_id assignments file
        ≡ save_clean J as_dict to_int to_str of_dict of_text
            (strip_space device_id)
            (taken_of assignments)
            (load true file)
  unfolding save_manual_assignments
  save-valid device_id assignments file named valid = rw (named, taken assignments valid) refl

  -- Saving manual choices for a device. Without a name, or where the choices of the slots 2, 3 and 4 are
  -- not all valid, it ends in ValueError: each is "__auto__", as for a slot that is missing,
  -- "__empty__", or a serial number of 8 to 40 letters, digits, dots, underscores and dashes, and no
  -- serial number stands twice. Otherwise it ends in the OSError of a file that cannot be read, or it
  -- writes a JSON, and when this is loaded, the device has these choices, or none if all of them are
  -- "__auto__", and each other device has the choices that it had.
  pub save_manual_assignments-load :
      (device_id : Text) (assignments : TextDict J) (file : Reading J) (raise_io_errors : Bool)
      → (((is_text (strip_space device_id) [] ≡ true) ⊎ (is_valid assignments ≡ false))
          × (save device_id assignments file ≡ value_error))
        ⊎ ((is_text (strip_space device_id) [] ≡ false)
            × (is_valid assignments ≡ true)
            × (((file ≡ unreadable) × (save device_id assignments file ≡ read_error))
                ⊎ IsSaved
                    (strip_space device_id)
                    assignments
                    file
                    raise_io_errors
                    (save device_id assignments file)))
  unfolding save_manual_assignments
  save_manual_assignments-load device_id assignments file raise_io_errors =
      elim (Bool-cases (is_text (strip_space device_id) [])) [
        | inl empty_name ↦ inl (inl empty_name, rw empty_name refl)
        | inr named ↦ elim (Bool-cases (is_valid assignments)) [
          | inr wrong ↦
              let refused : clean_of assignments [] tracked_slots ≡ none =
                clean_choices-are_valid J as_dict to_int to_str assignments ∙ rw wrong refl in
              inl (inr wrong, rw (named, refused) refl)
          | inl valid ↦
              let same = save-valid device_id assignments file named valid in
              inr (
                named,
                valid,
                elim (load-readable file) [
                  | inl (unread, fails) ↦ inl (unread, same ∙ rw fails refl)
                  | inr (before, l) ↦ inr (
                      subst (IsSaved (strip_space device_id) assignments file raise_io_errors)
                        (sym (same ∙ rw l refl))
                        (save_clean-IsSaved (strip_space device_id) assignments file before
                          raise_io_errors valid l))
                ],
              )
        ]
      ]
