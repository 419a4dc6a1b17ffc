-- ===== src/Battery/Shortcut.antt =====
-- The early return of `_stabilize_battery_payload_locked`: where no pack moves and none is left out, the
-- payload as it is has the values that the specification of `remap` says.
use gro_bro.Prelude.{
  ℕ, suc, ◌≤◌, ◌<◌, ◌≡◌, refl, sym, ap, ◌∙◌, inl, inr, true, false, none, some, List, [], ◌∷◌,
  arith, ◌==◌, if◌then◌else◌, ==_iff, Bool-cases, Option-cases, length,
}
use gro_bro.Battery.Slots.{contains, Dict, lookup, values, Manual, is_reserved}
use gro_bro.Battery.Stable.{Distinct}
use gro_bro.Dicts.{TextDict, get_item}
use gro_bro.Battery.Payload.{has_key, any_chosen, stays}
use gro_bro.Battery.Expected.{keys, lookup-keys, owner-lookup, owner-values, ArePlaces}
use gro_bro.Battery.Remap.{owner, expected_value}
use gro_bro.Bytes.{Text}
use gro_bro.Battery.Keys.{logical_slot_from_key}
use gro_bro.Battery.Moves.{lookup-values}
use gro_bro.Battery.Renames.{remap_key-own}

-- ys without the elements x
abbrev without : ℕ → List ℕ → List ℕ
without x [] = []
without x (y ∷ ys) = let rest = without x ys in if x == y then rest else y ∷ rest

contains-without :
    (x z : ℕ) (ys : List ℕ)
    → (z == x) ≡ false
    → contains z ys ≡ true
    → contains z (without x ys) ≡ true
contains-without x z [] ne h = cc
contains-without x z (y ∷ ys) ne h = ground (arith, contains-without x z ys ne)

length-without_le : (x : ℕ) (ys : List ℕ) → length (without x ys) ≤ length ys
length-without_le x [] = omega arith
length-without_le x (y ∷ ys) = ground (arith, length-without_le x ys)

length-without : (x : ℕ) (ys : List ℕ) → contains x ys ≡ true → length (without x ys) < length ys
length-without x [] h = cc
length-without x (y ∷ ys) h = ground (arith, length-without x ys, length-without_le x ys)

abbrev pub Within : List ℕ → List ℕ → Type 0
Within xs ys = (z : ℕ) → contains z xs ≡ true → contains z ys ≡ true

length-Within : (xs ys : List ℕ) → Distinct xs → Within xs ys → length xs ≤ length ys
length-Within [] ys d h = omega arith
length-Within (x ∷ xs) ys d h =
    let there : contains x ys ≡ true = h x (ground arith) in
    let rest : Within xs (without x ys) = λ z e.
      contains-without x z ys
        (elim (Bool-cases (z == x)) [
          | inl same ↦
              let eq : z ≡ x = (==_iff z x).0 same in
              let wrong : contains x xs ≡ true = rw eq at e in cc
          | inr other ↦ other
        ])
        (h z (ground arith)) in
    omega (arith, length-Within xs (without x ys) d.1 rest, length-without x ys there)

-- Different numbers within as many are all of them.
pub Within-all :
    (xs ys : List ℕ) (y : ℕ)
    → Distinct xs
    → Within xs ys
    → length xs ≡ length ys
    → contains y ys ≡ true
    → contains y xs ≡ true
Within-all xs ys y d h n there = elim (Bool-cases (contains y xs)) [
  | inl found ↦ found
  | inr missing ↦
      let rest : Within xs (without y ys) = λ z e.
        contains-without y z ys
          (elim (Bool-cases (z == y)) [
            | inl same ↦
                let eq : z ≡ y = (==_iff z y).0 same in
                let wrong : contains y xs ≡ true = rw eq at e in cc
            | inr other ↦ other
          ])
          (h z e) in
      absurd (omega (arith, length-Within xs (without y ys) d rest, length-without y ys there))
]

length-keys : (d : Dict) → length (keys d) ≡ length d
length-keys [] = refl
length-keys ((p, l) ∷ d) = ap suc (length-keys d)

stays-lookup : (places : Dict) (p l : ℕ) → stays places ≡ true → lookup p places ≡ some l → p ≡ l
stays-lookup [] p l s e = cc
stays-lookup ((q, m) ∷ places) p l s e = ground (arith, stays-lookup places p l)

any_chosen-is_reserved :
    (manual : Manual) (s : ℕ) → any_chosen manual ≡ false → is_reserved manual s ≡ false
any_chosen-is_reserved [] s h = refl
any_chosen-is_reserved ((slot, c) ∷ manual) s h = ground (arith, any_chosen-is_reserved manual s)

module _ {ℓ} {V : Type ℓ} (manual : Manual) (places current : Dict) (payload : TextDict V)
    (ok : ArePlaces places) (within : Within (keys places) (keys current))
    (unchosen : any_chosen manual ≡ false) (fixed : stays places ≡ true)
    (complete : length places ≡ length current) where
  all_placed : (l : ℕ) → has_key l places ≡ false → has_key l current ≡ false
  all_placed l h = elim (Bool-cases (has_key l current)) [
    | inr gone ↦ gone
    | inl there ↦
        let found : contains l (keys places) ≡ true =
          Within-all (keys places) (keys current) l ok.0 within
            (length-keys places ∙ complete ∙ sym (length-keys current))
            (lookup-keys current l ∙ there) in
        let same : has_key l places ≡ true = sym (lookup-keys places l) ∙ found in cc
  ]

  unowned : (l : ℕ) → owner l places ≡ none → has_key l places ≡ false
  unowned l e = elim (Option-cases (lookup l places)) [
    | inl gone ↦ rw gone refl
    | inr (m, there) ↦
        let eq : l ≡ m = stays-lookup places l m fixed there in
        let used : contains l (values places) ≡ true =
          lookup-values places l l (rw (sym eq) at there) in
        let free : contains l (values places) ≡ false = owner-values places l e in cc
  ]

  pub expected_value-stays :
      (key : Text)
      → expected_value (is_reserved manual) places current payload key ≡ get_item key payload
  expected_value-stays key = elim (Option-cases (logical_slot_from_key key)) [
    | inl plain ↦ rw plain refl
    | inr (l, e) ↦ elim (Option-cases (owner l places)) [
      | inr (p, own) ↦
          let eq : p ≡ l = stays-lookup places p l fixed (owner-lookup places l p ok.0 own) in
          rw (e, own, eq, remap_key-own key l e) refl
      | inl none_there ↦
          rw
            (
              e,
              none_there,
              unowned l none_there,
              any_chosen-is_reserved manual l unchosen,
              all_placed l (unowned l none_there),
            )
            refl
    ]
  ]
