-- ===== src/Battery/Saved.antt =====
-- The manual choices: what is loaded is valid for `stabilize_slots`, and what is saved is loaded again.
use gro_bro.Prelude.{
  ◌>>=◌, >>=-eq-some, ℕ, ◌≡◌, refl, sym, ap, ◌∙◌, inl, inr, Option, none, some, List, [], ◌∷◌,
  arith, if◌then◌else◌, Bool-cases, Option-cases, All,
}
use gro_bro.Dicts.{is_text_iff, TextDict, get_item, IsDict, get_item-set_item}
use gro_bro.Register.{ℤ}
use gro_bro.Bytes.{Text}
use gro_bro.Battery.Files.{
  Assignments, choice_text, add_explicit, clean_choices, device_choices, all_choices,
}
use gro_bro.Battery.Slots.{tracked_slots}
use gro_bro.Battery.Moves.{◌orelse◌}
use gro_bro.Battery.Placed.{AreChoices}
use gro_bro.Battery.Payload.{manual_of}
use gro_bro.Family.{is_text}

module _ (J : Type 0) (as_dict : J → Option (TextDict J)) (to_int : J → Option ℤ)
    (to_str : J → Text) where
  abbrev text_of : TextDict J → ℕ → Text
  text_of = choice_text J as_dict to_int to_str

  abbrev accept : List Text → Text → Option (List Text)
  accept = add_explicit J as_dict to_int to_str

  abbrev clean_of : TextDict J → List Text → List ℕ → Option Assignments
  clean_of = clean_choices J as_dict to_int to_str

  abbrev pub chosen : TextDict J → List ℕ → Assignments
  chosen assignments [] = []
  chosen assignments (slot ∷ slots) = (slot, text_of assignments slot) ∷ chosen assignments slots

  abbrev behind : TextDict J → ℕ → List ℕ → List Text → Option Assignments
  behind assignments slot slots explicit' = clean_of assignments explicit' slots >>= λ clean.
      some ((slot, text_of assignments slot) ∷ clean)

  pub clean_choices-chosen :
      (assignments : TextDict J) (explicit : List Text) (slots : List ℕ) (clean : Assignments)
      → clean_of assignments explicit slots ≡ some clean
      → clean ≡ chosen assignments slots
  clean_choices-chosen assignments explicit [] clean e = ground arith
  clean_choices-chosen assignments explicit (slot ∷ slots) clean e =
      let (explicit', h, e') =
        >>=-eq-some (accept explicit (text_of assignments slot)) (behind assignments slot slots)
          e in
      let (rest, r, e'') =
        >>=-eq-some (clean_of assignments explicit' slots)
          (λ c. some ((slot, text_of assignments slot) ∷ c)) e' in
      let eq : (slot, text_of assignments slot) ∷ rest ≡ clean = ground arith in
      sym eq
      ∙ ap (λ c. (slot, text_of assignments slot) ∷ c)
          (clean_choices-chosen assignments explicit' slots rest r)

  pub clean_choices-agree :
      (a b : TextDict J) (explicit : List Text) (slots : List ℕ)
      → All (λ s. text_of a s ≡ text_of b s) slots
      → clean_of a explicit slots ≡ clean_of b explicit slots
  clean_choices-agree a b explicit [] h = refl
  clean_choices-agree a b explicit (slot ∷ slots) h =
      elim (Option-cases (accept explicit (text_of b slot))) [
        | inl fails ↦ rw (h.0, fails) refl
        | inr (explicit', good) ↦ rw (h.0, good, clean_choices-agree a b explicit' slots h.1) refl
      ]

  pub clean_choices-AreChoices :
      (assignments : TextDict J) (clean : Assignments)
      → clean_of assignments [] tracked_slots ≡ some clean
      → AreChoices (manual_of clean)
  clean_choices-AreChoices assignments clean e =
      rw (clean_choices-chosen assignments [] tracked_slots clean e)
        ((refl, (refl, (refl, tt))), (inl refl, (inr (inl refl), (inr (inr refl), tt))))

  -- What the loader makes of one device.
  abbrev pub device_value : Option J → Option Assignments
  device_value o = o >>= λ j. as_dict j >>= λ a. clean_of a [] tracked_slots

  device_choices-lookup :
      (device_id k : Text) (o : Option (TextDict J)) (result : TextDict Assignments)
      → get_item k (device_choices J as_dict to_int to_str device_id o result) ≡ (
          if is_text k device_id
          then ((o >>= λ a. clean_of a [] tracked_slots) orelse get_item k result)
          else get_item k result)
  device_choices-lookup device_id k none result = elim (Bool-cases (is_text k device_id)) [
    | inl e ↦ rw e refl
    | inr e ↦ rw e refl
  ]
  device_choices-lookup device_id k (some a) result =
      elim (Option-cases (clean_of a [] tracked_slots)) [
        | inl fails ↦ elim (Bool-cases (is_text k device_id)) [
          | inl e ↦ rw (fails, e) refl
          | inr e ↦ rw (fails, e) refl
        ]
        | inr (clean, good) ↦ rw (good, get_item-set_item k device_id clean result) refl
      ]

  pub all_choices-lookup :
      (raw : TextDict J) (result : TextDict Assignments) (k : Text)
      → IsDict raw
      → get_item k (all_choices J as_dict to_int to_str raw result)
        ≡ (device_value (get_item k raw) orelse get_item k result)
  all_choices-lookup [] result k h = refl
  all_choices-lookup ((device_id, j) ∷ raw) result k h = elim (Bool-cases (is_text k device_id)) [
    | inr other ↦
        rw
          (
            other,
            all_choices-lookup raw
                (device_choices J as_dict to_int to_str device_id (as_dict j) result) k h.1,
            device_choices-lookup device_id k (as_dict j) result,
            other,
          )
          refl
    | inl same ↦
        let eq : k ≡ device_id = (is_text_iff k device_id).0 same in
        let fresh : get_item k raw ≡ none = rw eq h.0 in
        rw
          (
            same,
            all_choices-lookup raw
                (device_choices J as_dict to_int to_str device_id (as_dict j) result) k h.1,
            fresh,
            device_choices-lookup device_id k (as_dict j) result,
            same,
          )
          refl
  ]
