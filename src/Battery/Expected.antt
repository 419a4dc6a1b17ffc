-- ===== src/Battery/Expected.antt =====
-- `remap` has the values of its specification, and where nothing moves they are the payload's own.
use gro_bro.Prelude.{
  ℕ, ◌≡◌, refl, sym, subst, ◌∙◌, inl, inr, Bool, true, false, ◌||◌, Option, none, some, List, [],
  ◌∷◌, arith, ◌==◌, Bool-cases, Option-cases, if_splits, All,
}
use gro_bro.Battery.Slots.{contains, Dict, lookup, values}
use gro_bro.Battery.Stable.{Distinct}
use gro_bro.Battery.Moves.{◌orelse◌, AreSlots, move_items-lookup}
use gro_bro.Battery.Remap.{owner, expected_value, plain_items-slot, plain_items-plain}
use gro_bro.Battery.Patterns.{IsSlot}
use gro_bro.Battery.Renames.{logical_slot_from_key-remap_key, remap_key-remap_key}
use gro_bro.Dicts.{TextDict, get_item, IsDict}
use gro_bro.Battery.Payload.{has_key, is_skipped, plain_items, slot_items, move_items, remap}
use gro_bro.Bytes.{Text}
use gro_bro.Battery.Keys.{logical_slot_from_key, remap_key}
use gro_bro.Battery.Aside.{move_items-away, move_items-own}

abbrev pub keys : Dict → List ℕ
keys [] = []
keys ((p, l) ∷ d) = p ∷ keys d

pub orelse-none {ℓ} : {A : Type ℓ} (o : Option A) → (o orelse none) ≡ o
orelse-none none = refl
orelse-none (some a) = refl

pub lookup-keys : (d : Dict) (p : ℕ) → contains p (keys d) ≡ has_key p d
lookup-keys [] p = refl
lookup-keys ((q, m) ∷ d) p = ground (arith, lookup-keys d p)

owner-contains :
    (places : Dict) (l p : ℕ) → owner l places ≡ some p → contains p (keys places) ≡ true
owner-contains [] l p e = cc
owner-contains ((q, m) ∷ places) l p e = ground (arith, owner-contains places l p)

pub owner-lookup :
    (places : Dict) (l p : ℕ)
    → Distinct (keys places)
    → owner l places ≡ some p
    → lookup p places ≡ some l
owner-lookup [] l p d e = cc
owner-lookup ((q, m) ∷ places) l p d e =
    ground (arith, owner-lookup places l p d.1, owner-contains places l p)

pub owner-values :
    (places : Dict) (l : ℕ) → owner l places ≡ none → contains l (values places) ≡ false
owner-values [] l e = refl
owner-values ((q, m) ∷ places) l e = ground (arith, owner-values places l)

-- Different packs in different slots, all of them 2, 3 or 4.
abbrev pub ArePlaces : Dict → Type 0
ArePlaces places =
    Distinct (keys places) × Distinct (values places) × All IsSlot (keys places) × AreSlots places

key-IsSlot :
    (places : Dict) (p l : ℕ) → All IsSlot (keys places) → lookup p places ≡ some l → IsSlot p
key-IsSlot [] p l h e = cc
key-IsSlot ((q, m) ∷ places) p l h e = elim (Bool-cases (p == q)) [
  | inl same ↦ let eq : q ≡ p = ground arith in subst IsSlot eq h.0
  | inr other ↦ key-IsSlot places p l h.1 (ground arith)
]

is_skipped-hides :
    (reserved : ℕ → Bool) (places current : Dict) (l : ℕ)
    → lookup l places ≡ none
    → contains l (values places) ≡ false
    → is_skipped reserved places current l ≡ (has_key l places || (reserved l || has_key l current))
is_skipped-hides reserved places current l gone free = rw (gone, free) refl

unplaced :
    (places : Dict) (l : ℕ) (b : Bool) → (has_key l places || b) ≡ false → lookup l places ≡ none
unplaced places l b e = elim (Option-cases (lookup l places)) [
  | inl gone ↦ gone
  | inr (p, there) ↦ let wrong : true ≡ false = rw there at e in cc
]

module _ {ℓ} {V : Type ℓ} (reserved : ℕ → Bool) (places current : Dict) (ok : ArePlaces places)
    (payload : TextDict V) (h : IsDict payload) where
  remap-plain :
      (key : Text)
      → logical_slot_from_key key ≡ none
      → get_item key (remap reserved places current payload) ≡ get_item key payload
  unfolding remap
  remap-plain key e =
      rw
        (
          move_items-away reserved places current ok.3 key none payload (plain_items payload []) e
              (λ l eq. cc) (λ l eq. cc),
          plain_items-plain key payload [] e h,
        )
        (orelse-none (get_item key payload))

  remap-owned :
      (key : Text) (l p : ℕ)
      → logical_slot_from_key key ≡ some l
      → lookup p places ≡ some l
      → get_item key (remap reserved places current payload) ≡ get_item (remap_key key p) payload
  unfolding remap
  remap-owned key l p e there =
      let s : IsSlot p = key-IsSlot places p l ok.2 there in
      subst
        (λ k.
          get_item k
            (move_items reserved places current (slot_items payload) (plain_items payload []))
          ≡ get_item (remap_key key p) payload)
        (remap_key-remap_key key l p e s)
        (rw
          (
            move_items-lookup reserved places current ok.1 ok.3 (remap_key key p) p l
                (logical_slot_from_key-remap_key key l p e s) there payload (plain_items payload [])
                h,
            remap_key-remap_key key l p e s,
            plain_items-slot key l payload [] e,
          )
          (orelse-none (get_item (remap_key key p) payload)))

  remap-hidden :
      (key : Text) (l : ℕ)
      → logical_slot_from_key key ≡ some l
      → contains l (values places) ≡ false
      → (has_key l places || (reserved l || has_key l current)) ≡ true
      → get_item key (remap reserved places current payload) ≡ none
  unfolding remap
  remap-hidden key l e free hidden =
      rw
        (move_items-away reserved places current ok.3 key (some l) payload (plain_items payload [])
          e (λ k eq. let same : l ≡ k = ground arith in rw same at free)
          (λ k eq gone.
            let same : l ≡ k = ground arith in
            subst (λ j. is_skipped reserved places current j ≡ true) same
              (is_skipped-hides reserved places current l (rw (sym same) at gone) free ∙ hidden)))
        (plain_items-slot key l payload [] e)

  remap-shown :
      (key : Text) (l : ℕ)
      → logical_slot_from_key key ≡ some l
      → contains l (values places) ≡ false
      → (has_key l places || (reserved l || has_key l current)) ≡ false
      → get_item key (remap reserved places current payload) ≡ get_item key payload
  unfolding remap
  remap-shown key l e free shown =
      let gone : lookup l places ≡ none =
        unplaced places l (reserved l || has_key l current) shown in
      rw
        (
          move_items-own reserved places current ok.3 key l e gone free
              (is_skipped-hides reserved places current l gone free ∙ shown) payload
              (plain_items payload []) h,
          plain_items-slot key l payload [] e,
        )
        (orelse-none (get_item key payload))

  -- `remap` has at each name the value that its specification says.
  pub remap-expected_value :
      (key : Text)
      → get_item key (remap reserved places current payload)
        ≡ expected_value reserved places current payload key
  remap-expected_value key = elim (Option-cases (logical_slot_from_key key)) [
    | inl plain ↦ rw plain (remap-plain key plain)
    | inr (l, e) ↦ elim (Option-cases (owner l places)) [
      | inr (p, own) ↦ rw (e, own) (remap-owned key l p e (owner-lookup places l p ok.0 own))
      | inl no_owner ↦
          rw (e, no_owner)
            (if_splits (λ o. get_item key (remap reserved places current payload) ≡ o)
              (has_key l places || (reserved l || has_key l current))
              (remap-hidden key l e (owner-values places l no_owner))
              (remap-shown key l e (owner-values places l no_owner)))
    ]
  ]
