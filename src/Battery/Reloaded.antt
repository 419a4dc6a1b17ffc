-- ===== src/Battery/Reloaded.antt =====
-- The JSON of manual choices that was dumped is loaded as these choices.
use gro_bro.Prelude.{
  ℕ, ◌≡◌, refl, ap, subst, ◌∙◌, inl, inr, Bool, true, Option, none, some, List, [], ◌∷◌, arith,
  if◌then◌else◌, Bool-cases, Option-cases, if_keeps, All,
}
use gro_bro.Dicts.{
  TextDict, get_item, IsDict, get_item-set_item, get_item-del_item, set_item-IsDict,
  del_item-IsDict,
}
use gro_bro.Register.{ℤ}
use gro_bro.Bytes.{Text}
use gro_bro.Battery.Files.{
  Assignments, text_or_auto, choice_text, clean_choices, device_choices, all_choices, choices_of,
  load_manual_positions, all_automatic, dump_assignments, dump_positions, with_choices, Reading,
  missing, unreadable, malformed, loaded, Call, returned,
}
use gro_bro.Client.Topic.{decimal}
use gro_bro.Battery.Saved.{
  chosen, clean_choices-chosen, clean_choices-agree, device_value, all_choices-lookup,
}
use gro_bro.Client.Strip.{strip_space_idem}
use gro_bro.Battery.Slots.{tracked_slots}
use gro_bro.Family.{is_text}
use gro_bro.Battery.Expected.{orelse-none}

-- What is relied on of the JSON files: a dict that is dumped is read again as a dict of the same items,
-- in an order of its own, a text is read as it was, and no dict that is read has a key twice.
module _ (J : Type 0) (as_dict : J → Option (TextDict J)) (to_int : J → Option ℤ)
    (to_str : J → Text) (of_dict : TextDict J → J) (of_text : Text → J)
    (dump_dict : (d : TextDict J)
      → IsDict d
      → (d' : TextDict J) × (as_dict (of_dict d) ≡ some d')
        × IsDict d'
        × ((k : Text) → get_item k d' ≡ get_item k d))
    (dump_text : (t : Text) → to_str (of_text t) ≡ t)
    (read_dict : (j : J) (d : TextDict J) → as_dict j ≡ some d → IsDict d) where
  abbrev pub value : Option J → Option Assignments
  value = device_value J as_dict to_int to_str

  abbrev clean_of : TextDict J → List Text → List ℕ → Option Assignments
  clean_of = clean_choices J as_dict to_int to_str

  abbrev dump : Assignments → TextDict J
  dump = dump_assignments J as_dict to_int to_str of_dict of_text

  abbrev dump_all : TextDict Assignments → TextDict J
  dump_all = dump_positions J as_dict to_int to_str of_dict of_text

  abbrev text_of : TextDict J → ℕ → Text
  text_of = choice_text J as_dict to_int to_str

  chosen-IsDict : (a : TextDict J) → IsDict (dump (chosen J as_dict to_int to_str a tracked_slots))
  unfolding decimal
  chosen-IsDict a = (refl, (refl, (refl, tt)))

  text_of-reload :
      (a d : TextDict J) (slot : ℕ)
      → get_item (decimal slot) d ≡ some (of_text (text_of a slot))
      → text_of d slot ≡ text_of a slot
  text_of-reload a d slot e =
      rw (e, dump_text (text_of a slot))
        (strip_space_idem (text_or_auto J as_dict to_int to_str (get_item (decimal slot) a)))

  texts-reload :
      (a d : TextDict J)
      → ((k : Text)
          → get_item k d ≡ get_item k (dump (chosen J as_dict to_int to_str a tracked_slots)))
      → All (λ s. text_of d s ≡ text_of a s) tracked_slots
  unfolding decimal
  texts-reload a d same = (
    text_of-reload a d 2 (same (decimal 2)),
    (text_of-reload a d 3 (same (decimal 3)), (text_of-reload a d 4 (same (decimal 4)), tt)),
  )

  -- A device's choices that were loaded are loaded again.
  dump_assignments-value :
      (a : TextDict J) (clean : Assignments)
      → clean_of a [] tracked_slots ≡ some clean
      → value (some (of_dict (dump clean))) ≡ some clean
  dump_assignments-value a clean e =
      let form = clean_choices-chosen J as_dict to_int to_str a [] tracked_slots clean e in
      let (d, read, dict, same) =
        dump_dict (dump (chosen J as_dict to_int to_str a tracked_slots)) (chosen-IsDict a) in
      let again : as_dict (of_dict (dump clean)) ≡ some d =
        ap (λ c. as_dict (of_dict (dump c))) form ∙ read in
      rw
        (
          again,
          clean_choices-agree J as_dict to_int to_str d a [] tracked_slots (texts-reload a d same),
        )
        e

  abbrev pub dumped : Option Assignments → Option J
  dumped none = none
  dumped (some clean) = some (of_dict (dump clean))

  dump_positions-lookup :
      (positions : TextDict Assignments) (k : Text)
      → get_item k (dump_all positions) ≡ dumped (get_item k positions)
  dump_positions-lookup [] k = refl
  dump_positions-lookup ((i, clean) ∷ positions) k = elim (Bool-cases (is_text k i)) [
    | inl same ↦ rw same refl
    | inr other ↦ rw other (dump_positions-lookup positions k)
  ]

  dump_positions-IsDict :
      (positions : TextDict Assignments) → IsDict positions → IsDict (dump_all positions)
  dump_positions-IsDict [] h = tt
  dump_positions-IsDict ((i, clean) ∷ positions) h =
      (dump_positions-lookup positions i ∙ ap dumped h.0, dump_positions-IsDict positions h.1)

  device_choices-IsDict :
      (i : Text) (o : Option (TextDict J)) (result : TextDict Assignments)
      → IsDict result
      → IsDict (device_choices J as_dict to_int to_str i o result)
  device_choices-IsDict i none result h = h
  device_choices-IsDict i (some a) result h = elim (Option-cases (clean_of a [] tracked_slots)) [
    | inl fails ↦ rw fails h
    | inr (clean, good) ↦ rw good (set_item-IsDict i clean result h)
  ]

  all_choices-IsDict :
      (raw : TextDict J) (result : TextDict Assignments)
      → IsDict result
      → IsDict (all_choices J as_dict to_int to_str raw result)
  all_choices-IsDict [] result h = h
  all_choices-IsDict ((i, j) ∷ raw) result h =
      all_choices-IsDict raw _ (device_choices-IsDict i (as_dict j) result h)

  -- Each of the choices is dumped and loaded as itself.
  abbrev pub Reloads : TextDict Assignments → Type 0
  Reloads positions =
      IsDict positions × ((k : Text) → value (dumped (get_item k positions)) ≡ get_item k positions)

  value-reload : (o : Option J) → value (dumped (value o)) ≡ value o
  value-reload none = refl
  value-reload (some j) = elim (Option-cases (as_dict j)) [
    | inl other ↦ rw other refl
    | inr (a, read) ↦ elim (Option-cases (clean_of a [] tracked_slots)) [
      | inl fails ↦ rw (read, fails) refl
      | inr (clean, good) ↦ rw (read, good) (dump_assignments-value a clean good)
    ]
  ]

  abbrev load : Bool → Reading J → Call (TextDict Assignments)
  load = load_manual_positions J as_dict to_int to_str

  all_choices-Reloads :
      (raw : TextDict J) → IsDict raw → Reloads (all_choices J as_dict to_int to_str raw [])
  all_choices-Reloads raw h = (
    all_choices-IsDict raw [] tt,
    λ k.
        rw
          (
            all_choices-lookup J as_dict to_int to_str raw [] k h,
            orelse-none (value (get_item k raw)),
          )
          (value-reload (get_item k raw)),
  )

  choices_of-Reloads :
      (j : J) (o : Option (TextDict J))
      → as_dict j ≡ o
      → Reloads (choices_of J as_dict to_int to_str o)
  choices_of-Reloads j none e = (tt, λ k. refl)
  choices_of-Reloads j (some raw) e = all_choices-Reloads raw (read_dict j raw e)

  pub load_manual_positions-Reloads :
      (file : Reading J) (before : TextDict Assignments)
      → load true file ≡ returned before
      → Reloads before
  unfolding load_manual_positions
  load_manual_positions-Reloads missing before e =
      let eq : [] ≡ before = ground arith in subst Reloads eq (tt, λ k. refl)
  load_manual_positions-Reloads unreadable before e = cc
  load_manual_positions-Reloads malformed before e =
      let eq : [] ≡ before = ground arith in subst Reloads eq (tt, λ k. refl)
  load_manual_positions-Reloads (loaded raw) before e =
      let eq : choices_of J as_dict to_int to_str (as_dict raw) ≡ before = ground arith in
      subst Reloads eq (choices_of-Reloads raw (as_dict raw) refl)

  -- What a device has behind a save.
  abbrev pub saved : Assignments → Option Assignments
  saved clean = if all_automatic J as_dict to_int to_str clean then none else some clean

  pub with_choices-lookup :
      (name k : Text) (clean : Assignments) (positions : TextDict Assignments)
      → get_item k (with_choices J as_dict to_int to_str of_dict of_text name clean positions)
        ≡ (if is_text k name then saved clean else get_item k positions)
  with_choices-lookup name k clean positions =
      elim (Bool-cases (all_automatic J as_dict to_int to_str clean)) [
        | inl auto ↦ rw (auto, get_item-del_item k name positions) refl
        | inr set ↦ rw (set, get_item-set_item k name clean positions) refl
      ]

  pub with_choices-Reloads :
      (name : Text) (a : TextDict J) (clean : Assignments) (positions : TextDict Assignments)
      → clean_of a [] tracked_slots ≡ some clean
      → Reloads positions
      → Reloads (with_choices J as_dict to_int to_str of_dict of_text name clean positions)
  with_choices-Reloads name a clean positions e h = (
    if_keeps IsDict (all_automatic J as_dict to_int to_str clean)
        (del_item-IsDict name positions h.0) (set_item-IsDict name clean positions h.0),
    λ k. rw (with_choices-lookup name k clean positions) (
        if_keeps (λ o. value (dumped o) ≡ o) (is_text k name)
          (if_keeps (λ o. value (dumped o) ≡ o) (all_automatic J as_dict to_int to_str clean) refl
            (dump_assignments-value a clean e))
          (h.1 k)),
  )

  -- A JSON of choices that were loaded is loaded as these.
  pub dump_positions-load :
      (raise_io_errors : Bool) (positions : TextDict Assignments)
      → Reloads positions
      → (after : TextDict Assignments) × (load raise_io_errors
            (loaded (of_dict (dump_all positions)))
          ≡ returned after)
        × ((k : Text) → get_item k after ≡ get_item k positions)
  unfolding load_manual_positions
  dump_positions-load raise_io_errors positions h =
      let (d, read, dict, same) =
        dump_dict (dump_all positions) (dump_positions-IsDict positions h.0) in
      (
        all_choices J as_dict to_int to_str d [],
        rw read refl,
        λ k.
            rw
              (
                all_choices-lookup J as_dict to_int to_str d [] k dict,
                orelse-none (value (get_item k d)),
                same k,
                dump_positions-lookup positions k,
              )
              (h.1 k),
      )
