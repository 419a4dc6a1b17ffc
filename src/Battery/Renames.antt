-- ===== src/Battery/Renames.antt =====
-- The names of a slot's values in other slots: a name keeps its pattern, and comes back.
use gro_bro.Prelude.{
  ℕ, ◌+◌, ◌≡◌, sym, subst, ◌∙◌, inl, inr, Bool, true, none, some, [], ◌∷◌, ◌++◌, arith,
  Option-cases,
}
use gro_bro.Battery.Keys.{
  before_underscore, before_capital, at_end, pattern_match, match_key, logical_slot_from_key,
  remap_key, Parts,
}
use gro_bro.Client.Topic.{decimal}
use gro_bro.Bytes.{Text}
use gro_bro.Battery.Patterns.{IsSlot, pattern_match-Fits, or-eq, match_key-Matched}
use gro_bro.Dicts.{codes}

-- The slot of a name is one of 2, 3 and 4, and the name has a match.
slot-match :
    (name : Text) (p : ℕ)
    → logical_slot_from_key name ≡ some p
    → (m : Parts) × (match_key name ≡ some m) × (m.slot ≡ p)
unfolding logical_slot_from_key
slot-match name p e = elim (Option-cases (match_key name)) [
  | inl h ↦ let gone : none ≡ some p = rw h at e in cc
  | inr (m, h) ↦ let there : some m.slot ≡ some p = rw h at e in (m, h, ground arith)
]

pub logical_slot_from_key-IsSlot :
    (name : Text) (p : ℕ) → logical_slot_from_key name ≡ some p → IsSlot p
logical_slot_from_key-IsSlot name p e =
    let (m, h, eq) = slot-match name p e in subst IsSlot eq (match_key-Matched name m h).1

decimal-IsSlot : (l : ℕ) → IsSlot l → decimal l ≡ (b'0' + l) ∷ []
unfolding decimal
decimal-IsSlot l (inl e) = rw e
decimal-IsSlot l (inr (inl e)) = rw e
decimal-IsSlot l (inr (inr e)) = rw e

remap_key-match :
    (name : Text) (m : Parts) (l : ℕ)
    → match_key name ≡ some m
    → IsSlot l
    → remap_key name l ≡ m.head ++ (b'0' + l) ∷ m.tail
unfolding remap_key
remap_key-match name m l h s = rw (h, decimal-IsSlot l s)

pub match_key-remap_key :
    (name : Text) (m : Parts) (l : ℕ)
    → match_key name ≡ some m
    → IsSlot l
    → match_key (remap_key name l) ≡ some (record { head = m.head; slot = l; tail = m.tail })
match_key-remap_key name m l h s =
    rw (remap_key-match name m l h s) ((match_key-Matched name m h).2 l s)

pub logical_slot_from_key-match :
    (name : Text) (m : Parts) → match_key name ≡ some m → logical_slot_from_key name ≡ some m.slot
unfolding logical_slot_from_key
logical_slot_from_key-match name m h = rw h

-- The name of a value in another slot is a name of that slot.
pub logical_slot_from_key-remap_key :
    (name : Text) (p l : ℕ)
    → logical_slot_from_key name ≡ some p
    → IsSlot l
    → logical_slot_from_key (remap_key name l) ≡ some l
logical_slot_from_key-remap_key name p l e s =
    let (m, h, eq) = slot-match name p e in
    logical_slot_from_key-match (remap_key name l) _ (match_key-remap_key name m l h s)

-- In its own slot a name stays as it is.
pub remap_key-own :
    (name : Text) (p : ℕ) → logical_slot_from_key name ≡ some p → remap_key name p ≡ name
remap_key-own name p e =
    let (m, h, eq) = slot-match name p e in
    let (same, range, moves) = match_key-Matched name m h in
    subst (λ q. remap_key name q ≡ name) eq (remap_key-match name m m.slot h range ∙ sym same)

-- Back in its first slot a value has its first name.
pub remap_key-remap_key :
    (name : Text) (p l : ℕ)
    → logical_slot_from_key name ≡ some p
    → IsSlot l
    → remap_key (remap_key name l) p ≡ name
remap_key-remap_key name p l e s =
    let (m, h, eq) = slot-match name p e in
    let (same, range, moves) = match_key-Matched name m h in
    subst (λ q. remap_key (remap_key name l) q ≡ name) eq
      (remap_key-match (remap_key name l) _ m.slot (match_key-remap_key name m l h s) range
        ∙ sym same)

-- What holds of the names of each pattern holds of every name of a slot.
module _ (P : Text → ℕ → Type 0) where
  abbrev pub Holds : Text → (Text → Bool) → Type 0
  Holds prefix ahead =
      (l : ℕ) (t : Text) → IsSlot l → ahead t ≡ true → P (prefix ++ (b'0' + l) ∷ t) l

  Holds-Fits :
      (prefix : Text) (ahead : Text → Bool) (name : Text) (m : Parts)
      → Holds prefix ahead
      → pattern_match prefix ahead name ≡ some m
      → P name m.slot
  Holds-Fits prefix ahead name m holds e =
      let (eq, at_prefix, good, range) = pattern_match-Fits prefix ahead name m e in
      subst (λ n. P n m.slot) (sym eq)
        (subst (λ h. P (h ++ (b'0' + m.slot) ∷ m.tail) m.slot) (sym at_prefix)
          (holds m.slot m.tail range good))

  pub logical_slot_from_key-Holds :
      Holds (codes "bat") before_underscore
      → Holds (codes "bat_") before_underscore
      → Holds (codes "battery") before_capital
      → Holds (codes "maxcvbat") at_end
      → Holds (codes "mincvbat") at_end
      → (name : Text) (p : ℕ) → logical_slot_from_key name ≡ some p
      → P name p
  unfolding match_key
  logical_slot_from_key-Holds h1 h2 h3 h4 h5 name p e =
      let (m, found, slot) = slot-match name p e in
      subst (P name) slot (elim (or-eq _ _ m found) [
        | inl a ↦ Holds-Fits (codes "bat") before_underscore name m h1 a
        | inr b ↦ elim (or-eq _ _ m b) [
          | inl a ↦ Holds-Fits (codes "bat_") before_underscore name m h2 a
          | inr c ↦ elim (or-eq _ _ m c) [
            | inl a ↦ Holds-Fits (codes "battery") before_capital name m h3 a
            | inr d ↦ elim (or-eq _ _ m d) [
              | inl a ↦ Holds-Fits (codes "maxcvbat") at_end name m h4 a
              | inr f ↦ Holds-Fits (codes "mincvbat") at_end name m h5 f
            ]
          ]
        ]
      ])
