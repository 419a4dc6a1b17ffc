-- ===== src/Battery/Reread.antt =====
-- A mapping of serials to slots that was dumped is loaded as it was.
use gro_bro.Prelude.{
  ℕ, ◌≡◌, refl, sym, ap, subst, ◌∙◌, inl, inr, true, false, Option, none, some, List, [], ◌∷◌, ◌==◌,
  ==_iff, Bool-cases,
}
use gro_bro.Bytes.{Text}
use gro_bro.Dicts.{is_text_iff, TextDict, get_item, set_item, IsDict, get_item-set_item}
use gro_bro.Register.{ℤ, pos}
use gro_bro.Battery.Slots.{tracked_slots, contains}
use gro_bro.Battery.Files.{Positions, clean_entry, clean_positions}
use gro_bro.Battery.Serials.{is_plausible_serial}
use gro_bro.Battery.Plausible.{clean_text-plausible}
use gro_bro.Battery.Persist.{dump_slots}
use gro_bro.Family.{is_text}

-- Plausible serial numbers, each with a slot of its own, which is 2, 3 or 4.
abbrev pub IsGood : Positions → Type 0
IsGood p =
    IsDict p
    × ((k : Text) (s : ℕ)
        → get_item k p ≡ some s
        → (is_plausible_serial k ≡ true) × (contains s tracked_slots ≡ true))
    × ((j k : Text) (s : ℕ) → get_item j p ≡ some s → get_item k p ≡ some s → j ≡ k)

plausible_named : (k : Text) → is_plausible_serial k ≡ true → is_text k [] ≡ false
unfolding is_plausible_serial
plausible_named [] h = cc
plausible_named (c ∷ k) h = refl

-- The value of a key that is still to be read, or what was read.
abbrev pick : {V : Type 0} → Option V → Option ℕ → Option ℕ → Option ℕ
pick none read mine = read
pick (some j) read mine = mine

module _ (J : Type 0) (as_dict : J → Option (TextDict J)) (to_int : J → Option ℤ)
    (to_str : J → Text) (of_dict : TextDict J → J) (of_int : ℕ → J)
    (dump_int : (n : ℕ) → to_int (of_int n) ≡ some (pos n)) where
  abbrev clean_of : TextDict J → Positions × List ℕ → Positions × List ℕ
  clean_of = clean_positions J as_dict to_int to_str

  abbrev of_slot : Option ℕ → Option J
  of_slot none = none
  of_slot (some n) = some (of_int n)

  dumped_entry :
      (o : Option ℕ) (j : J)
      → of_slot o ≡ some j
      → (s : ℕ) × (o ≡ some s) × (j ≡ of_int s) × (contains s [] ≡ false)
  dumped_entry none j e = cc
  dumped_entry (some s) j e = let eq : of_int s ≡ j = cc in (s, refl, sym eq, refl)

  picked : (o : Option ℕ) → pick (of_slot o) none o ≡ o
  picked none = refl
  picked (some s) = refl

  get_item-dump_slots :
      (p : Positions) (k : Text)
      → get_item k (dump_slots J as_dict to_int to_str of_dict of_int p) ≡ of_slot (get_item k p)
  get_item-dump_slots [] k = refl
  get_item-dump_slots ((j, w) ∷ p) k = elim (Bool-cases (is_text k j)) [
    | inl same ↦ rw same refl
    | inr other ↦ rw other (get_item-dump_slots p k)
  ]

  pub dump_slots-IsDict :
      (p : Positions) → IsDict p → IsDict (dump_slots J as_dict to_int to_str of_dict of_int p)
  dump_slots-IsDict [] h = tt
  dump_slots-IsDict ((k, s) ∷ p) h =
      (get_item-dump_slots p k ∙ ap of_slot h.0, dump_slots-IsDict p h.1)

  -- An entry that was written is taken again, where its slot was not read before.
  clean_entry-dumped :
      (serial : Text) (slot : ℕ) (clean : Positions) (used : List ℕ)
      → is_plausible_serial serial ≡ true
      → contains slot tracked_slots ≡ true
      → contains slot used ≡ false
      → clean_entry J as_dict to_int to_str serial (to_int (of_int slot)) (clean, used)
        ≡ (set_item serial slot clean, slot ∷ used)
  clean_entry-dumped serial slot clean used good tracked new =
      rw
        (dump_int slot, clean_text-plausible serial good, plausible_named serial good, tracked, new)
        refl

  -- What is known of entries that are still to be read: they were written for `p`, and their slots were
  -- not read before.
  abbrev IsRest : Positions → TextDict J → List ℕ → Type 0
  IsRest p d used =
      (k : Text) (j : J)
      → get_item k d ≡ some j
      → (s : ℕ) × (get_item k p ≡ some s) × (j ≡ of_int s) × (contains s used ≡ false)

  IsRest-tail :
      (p : Positions) (serial : Text) (slot : ℕ) (j : J) (d : TextDict J) (used : List ℕ)
      → IsGood p
      → get_item serial d ≡ none
      → get_item serial p ≡ some slot
      → IsRest p ((serial, j) ∷ d) used
      → IsRest p d (slot ∷ used)
  IsRest-tail p serial slot j d used good fresh at rest k i e =
      let other : is_text k serial ≡ false = elim (Bool-cases (is_text k serial)) [
        | inr other ↦ other
        | inl same ↦
            let eq : k ≡ serial = (is_text_iff k serial).0 same in
            let there : get_item serial d ≡ some i =
              subst (λ (t : Text). get_item t d ≡ some i) eq e in
            cc
      ] in
      let found : get_item k ((serial, j) ∷ d) ≡ some i = rw other e in
      let (s, has, written, new) = rest k i found in
      let apart : (s == slot) ≡ false = elim (Bool-cases (s == slot)) [
        | inr apart ↦ apart
        | inl same ↦
            let eq : s ≡ slot = (==_iff s slot).0 same in
            let one : k ≡ serial = good.2 k serial slot (rw (sym eq) has) at in
            let met : is_text k serial ≡ true = (is_text_iff k serial).1 one in cc
      ] in
      (s, has, written, rw (apart, new) refl)

  clean_positions-rest :
      (p : Positions) (d : TextDict J) (clean : Positions) (used : List ℕ) (k : Text)
      → IsGood p
      → IsDict d
      → IsRest p d used
      → get_item k (clean_of d (clean, used)).0
        ≡ pick (get_item k d) (get_item k clean) (get_item k p)
  clean_positions-rest p [] clean used k good h rest = refl
  clean_positions-rest p ((serial, j) ∷ d) clean used k good h rest =
      let (slot, at, written, new) = rest serial j (rw ((is_text_iff serial serial).1 refl) refl) in
      let (plausible, tracked) = good.1 serial slot at in
      let step : clean_entry J as_dict to_int to_str serial (to_int j) (clean, used)
          ≡ (set_item serial slot clean, slot ∷ used) =
        ap (λ (i : J). clean_entry J as_dict to_int to_str serial (to_int i) (clean, used)) written
        ∙ clean_entry-dumped serial slot clean used plausible tracked new in
      let later =
        clean_positions-rest p d (set_item serial slot clean) (slot ∷ used) k good h.1
          (IsRest-tail p serial slot j d used good h.0 at rest) in
      ap (λ (kept : Positions × List ℕ). get_item k (clean_of d kept).0) step
      ∙ later
      ∙ elim (Bool-cases (is_text k serial)) [
        | inr other ↦ rw (get_item-set_item k serial slot clean, other) refl
        | inl same ↦
            let eq : k ≡ serial = (is_text_iff k serial).0 same in
            let gone : get_item k d ≡ none = rw eq h.0 in
            let mine : get_item k p ≡ some slot = rw eq at in
            rw (get_item-set_item k serial slot clean, same, gone, mine) refl
      ]

  -- Its entries in any order are loaded as the mapping.
  pub clean_positions-dumped :
      (p : Positions) (d : TextDict J) (k : Text)
      → IsGood p
      → IsDict d
      → ((i : Text)
          → get_item i d ≡ get_item i (dump_slots J as_dict to_int to_str of_dict of_int p))
      → get_item k (clean_of d ([], [])).0 ≡ get_item k p
  clean_positions-dumped p d k good h same =
      let written : (i : Text) → get_item i d ≡ of_slot (get_item i p) =
        λ i. same i ∙ get_item-dump_slots p i in
      clean_positions-rest p d [] [] k good h
        (λ i j e. dumped_entry (get_item i p) j (sym (written i) ∙ e))
      ∙ rw (written k) (picked (get_item k p))
