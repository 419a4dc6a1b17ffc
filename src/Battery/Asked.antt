-- ===== src/Battery/Asked.antt =====
-- What is asked for in manual choices, and when they are valid: `clean_choices` described on its own.
use gro_bro.Prelude.{
  ◌>>=◌, ℕ, ◌≡◌, refl, ◌∙◌, Bool, true, false, not, ◌&&◌, ◌||◌, Option, none, some, List, [], ◌∷◌,
  arith, leb, ◌==◌, if◌then◌else◌, length, all, inl, inr, Bool-cases,
}
use gro_bro.Dicts.{codes, TextDict, get_item}
use gro_bro.Register.{ℤ}
use gro_bro.Bytes.{Text}
use gro_bro.Battery.Files.{Assignments, text_or_auto, choice_text, add_explicit, clean_choices}
use gro_bro.Battery.Saved.{chosen}
use gro_bro.Battery.Serials.{is_plausible_serial, is_serial_char}
use gro_bro.Battery.Slots.{tracked_slots}
use gro_bro.Client.Topic.{strip_space, decimal}
use gro_bro.Family.{is_text, has_text}

-- A letter or a digit of ASCII, `.`, `_` or `-`.
abbrev pub is_serial_code : ℕ → Bool
is_serial_code c =
    ((leb 48 c && leb c 57) || ((leb 65 c && leb c 90) || (leb 97 c && leb c 122)))
    || (c == 46 || (c == 95 || c == 45))

-- 8 to 40 of these.
abbrev pub is_serial : Text → Bool
is_serial s = (leb 8 (length s) && leb (length s) 40) && all is_serial_code s

abbrev pub is_auto : Text → Bool
is_auto s = is_text s (codes "__auto__")

-- Neither "__auto__" nor "__empty__".
abbrev pub is_named : Text → Bool
is_named s = not (is_auto s || is_text s (codes "__empty__"))

abbrev pub is_choice : Text → Bool
is_choice s = not (is_named s) || is_serial s

-- The same battery is named twice.
abbrev pub is_twice : Text → Text → Bool
is_twice s t = (is_named s && is_named t) && is_text t s

abbrev pub are_valid : Text → Text → Text → Bool
are_valid a b c =
    (is_choice a && (is_choice b && is_choice c))
    && not (is_twice a b || (is_twice a c || is_twice b c))

-- What a device then has: none where nothing but "__auto__" is asked for.
abbrev pub choices_kept : Text → Text → Text → Option Assignments
choices_kept a b c =
    if is_auto a && (is_auto b && is_auto c) then none else some ((2, a) ∷ (3, b) ∷ (4, c) ∷ [])

is_serial_char-code : (c : ℕ) → is_serial_char c ≡ is_serial_code c
is_serial_char-code c = ground arith

all_serial_chars : (s : Text) → all is_serial_char s ≡ all is_serial_code s
all_serial_chars [] = refl
all_serial_chars (c ∷ s) = rw (is_serial_char-code c, all_serial_chars s) refl

is_plausible_serial-is_serial : (s : Text) → is_plausible_serial s ≡ is_serial s
unfolding is_plausible_serial
is_plausible_serial-is_serial s = rw (all_serial_chars s) refl

-- The tests that the code makes, one slot after the other.
abbrev passes : List Text → List Text → Bool
passes seen [] = true
passes seen (v ∷ texts) =
    if is_named v
    then (is_serial v && not (has_text v seen)) && passes (v ∷ seen) texts
    else passes seen texts

passes-are_valid : (a b c : Text) → passes [] (a ∷ b ∷ c ∷ []) ≡ are_valid a b c
passes-are_valid a b c = ground arith

some_if :
    {A : Type 0} (x : A) (xs : List A) (b : Bool)
    → ((if b then some xs else none) >>= λ clean. some (x ∷ clean))
      ≡ (if b then some (x ∷ xs) else none)
some_if x xs true = refl
some_if x xs false = refl

module _ (J : Type 0) (as_dict : J → Option (TextDict J)) (to_int : J → Option ℤ)
    (to_str : J → Text) where
  -- A value that is given for a slot, stripped, or "__auto__".
  abbrev pub given : Option J → Text
  given none = codes "__auto__"
  given (some value) = strip_space (to_str value)

  abbrev pub asked : Text → TextDict J → Text
  asked key assignments = given (get_item key assignments)

  abbrev texts_of : TextDict J → List ℕ → List Text
  texts_of assignments [] = []
  texts_of assignments (slot ∷ slots) =
      choice_text J as_dict to_int to_str assignments slot ∷ texts_of assignments slots

  clean_choices-passes :
      (assignments : TextDict J) (explicit : List Text) (slots : List ℕ)
      → clean_choices J as_dict to_int to_str assignments explicit slots ≡ (
          if passes explicit (texts_of assignments slots)
          then some (chosen J as_dict to_int to_str assignments slots)
          else none)
  clean_choices-passes assignments explicit [] = refl
  clean_choices-passes assignments explicit (slot ∷ slots) =
      let v = choice_text J as_dict to_int to_str assignments slot in
      let same = is_plausible_serial-is_serial v in
      elim (Bool-cases (is_named v)) [
        | inl named ↦ elim (Bool-cases (is_serial v && not (has_text v explicit))) [
          | inl good ↦
              let taken : add_explicit J as_dict to_int to_str explicit v ≡ some (v ∷ explicit) =
                ground arith in
              rw (taken, named, good, clean_choices-passes assignments (v ∷ explicit) slots)
                (some_if (slot, v) (chosen J as_dict to_int to_str assignments slots)
                  (passes (v ∷ explicit) (texts_of assignments slots)))
          | inr bad ↦
              let taken : add_explicit J as_dict to_int to_str explicit v ≡ none = ground arith in
              rw (taken, named, bad) refl
        ]
        | inr free ↦
            let taken : add_explicit J as_dict to_int to_str explicit v ≡ some explicit =
              ground arith in
            rw (taken, free, clean_choices-passes assignments explicit slots)
              (some_if (slot, v) (chosen J as_dict to_int to_str assignments slots)
                (passes explicit (texts_of assignments slots)))
      ]

  choice_text-given :
      (o : Option J) → strip_space (text_or_auto J as_dict to_int to_str o) ≡ given o
  choice_text-given none = refl
  choice_text-given (some value) = refl

  -- The choices are taken as they are asked for, if these are valid.
  pub clean_choices-are_valid :
      (assignments : TextDict J)
      → clean_choices J as_dict to_int to_str assignments [] tracked_slots ≡ (
          if are_valid
            (asked (codes "2") assignments)
            (asked (codes "3") assignments)
            (asked (codes "4") assignments)
          then some (
              (2, asked (codes "2") assignments)
              ∷ (3, asked (codes "3") assignments)
              ∷ (4, asked (codes "4") assignments)
              ∷ [])
          else none)
  unfolding decimal
  clean_choices-are_valid assignments =
      clean_choices-passes assignments [] tracked_slots
      ∙ rw
          (
            choice_text-given (get_item (codes "2") assignments),
            choice_text-given (get_item (codes "3") assignments),
            choice_text-given (get_item (codes "4") assignments),
            passes-are_valid (asked (codes "2") assignments) (asked (codes "3") assignments)
                (asked (codes "4") assignments),
          )
          refl
