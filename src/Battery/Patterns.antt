-- ===== src/Battery/Patterns.antt =====
-- What a match of one of `_BAT_KEY_PATTERNS` says of a name, and that it stays one for another slot.
use gro_bro.Prelude.{
  >>=-eq-some, ℕ, ◌+◌, ◌-◌, ◌≡◌, refl, ap, subst, ◌⊎◌, inl, inr, Bool, true, ◌&&◌, Option, none,
  some, [], ◌∷◌, ◌++◌, arith, leb, ◌==◌, ==_iff, Bool-cases,
}
use gro_bro.Battery.Keys.{
  after_prefix, before_underscore, before_capital, at_end, digit_match, pattern_match, ◌or◌,
  match_key, Parts,
}
use gro_bro.Bytes.{Text}
use gro_bro.Dicts.{codes}

abbrev pub IsSlot : ℕ → Type 0
IsSlot s = (s ≡ 2) ⊎ (s ≡ 3) ⊎ (s ≡ 4)

-- What a match says of the name.
abbrev pub Fits : Text → (Text → Bool) → Text → Parts → Type 0
Fits prefix ahead name m =
    (name ≡ m.head ++ (b'0' + m.slot) ∷ m.tail)
    × (m.head ≡ prefix)
    × (ahead m.tail ≡ true)
    × IsSlot m.slot

after_prefix-eq : (prefix name s : Text) → after_prefix prefix name ≡ some s → name ≡ prefix ++ s
after_prefix-eq [] name s e = ground arith
after_prefix-eq (p ∷ ps) [] s e = cc
after_prefix-eq (p ∷ ps) (c ∷ name) s e = elim (Bool-cases (p == c)) [
  | inl same ↦
      let eq : p ≡ c = (==_iff p c).0 same in rw (eq, after_prefix-eq ps name s (rw same at e))
  | inr other ↦ ground arith
]

digit_match-Fits :
    (prefix : Text) (ahead : Text → Bool) (s : Text) (m : Parts)
    → digit_match prefix ahead s ≡ some m
    → Fits prefix ahead (prefix ++ s) m
digit_match-Fits prefix ahead [] m e = cc
digit_match-Fits prefix ahead (c ∷ s) m e =
    elim (Bool-cases ((leb b'2' c && leb c b'4') && ahead s)) [
      | inr fails ↦ let gone : none ≡ some m = rw fails at e in cc
      | inl matches ↦
          let made : some (record { head = prefix; slot = c - b'0'; tail = s }) ≡ some m =
            rw matches at e in
          let eq : record { head = prefix; slot = c - b'0'; tail = s } ≡ m = ground arith in
          subst (Fits prefix ahead (prefix ++ c ∷ s)) eq
            (ap (λ d. prefix ++ d ∷ s) (ground arith), refl, ground arith, ground arith)
    ]

pub pattern_match-Fits :
    (prefix : Text) (ahead : Text → Bool) (name : Text) (m : Parts)
    → pattern_match prefix ahead name ≡ some m
    → Fits prefix ahead name m
pattern_match-Fits prefix ahead name m e =
    let (s, there, found) = >>=-eq-some (after_prefix prefix name) (digit_match prefix ahead) e in
    rw (after_prefix-eq prefix name s there) (digit_match-Fits prefix ahead s m found)

-- A match of one of the patterns stays one with another slot's digit.
abbrev Moves : Text → (Text → Bool) → Type 0
Moves prefix ahead =
    (l : ℕ) (t : Text)
    → IsSlot l
    → ahead t ≡ true
    → match_key (prefix ++ (b'0' + l) ∷ t) ≡ some (record { head = prefix; slot = l; tail = t })

Moves-bat : Moves (codes "bat") before_underscore
unfolding match_key
Moves-bat l t (inl e) h = rw (e, h)
Moves-bat l t (inr (inl e)) h = rw (e, h)
Moves-bat l t (inr (inr e)) h = rw (e, h)

Moves-underscore : Moves (codes "bat_") before_underscore
unfolding match_key
Moves-underscore l t (inl e) h = rw (e, h)
Moves-underscore l t (inr (inl e)) h = rw (e, h)
Moves-underscore l t (inr (inr e)) h = rw (e, h)

Moves-battery : Moves (codes "battery") before_capital
unfolding match_key
Moves-battery l t (inl e) h = rw (e, h)
Moves-battery l t (inr (inl e)) h = rw (e, h)
Moves-battery l t (inr (inr e)) h = rw (e, h)

Moves-maxcv : Moves (codes "maxcvbat") at_end
unfolding match_key
Moves-maxcv l t (inl e) h = rw (e, h)
Moves-maxcv l t (inr (inl e)) h = rw (e, h)
Moves-maxcv l t (inr (inr e)) h = rw (e, h)

Moves-mincv : Moves (codes "mincvbat") at_end
unfolding match_key
Moves-mincv l t (inl e) h = rw (e, h)
Moves-mincv l t (inr (inl e)) h = rw (e, h)
Moves-mincv l t (inr (inr e)) h = rw (e, h)

-- What is used of the pattern of a name.
abbrev pub Matched : Text → Parts → Type 0
Matched name m =
    (name ≡ m.head ++ (b'0' + m.slot) ∷ m.tail)
    × IsSlot m.slot
    × ((l : ℕ)
        → IsSlot l
        → match_key (m.head ++ (b'0' + l) ∷ m.tail)
          ≡ some (record { head = m.head; slot = l; tail = m.tail }))

Matched-Fits :
    (prefix : Text) (ahead : Text → Bool) (name : Text) (m : Parts)
    → Moves prefix ahead
    → pattern_match prefix ahead name ≡ some m
    → Matched name m
Matched-Fits prefix ahead name m moves e =
    let (eq, at, good, range) = pattern_match-Fits prefix ahead name m e in
    (eq, range, λ l h. rw at (moves l m.tail h good))

pub or-eq : (o p : Option Parts) (m : Parts) → (o or p) ≡ some m → (o ≡ some m) ⊎ (p ≡ some m)
or-eq (some n) p m e = inl e
or-eq none p m e = inr e

pub match_key-Matched : (name : Text) (m : Parts) → match_key name ≡ some m → Matched name m
unfolding match_key
match_key-Matched name m e = elim (or-eq _ _ m e) [
  | inl a ↦ Matched-Fits (codes "bat") before_underscore name m Moves-bat a
  | inr b ↦ elim (or-eq _ _ m b) [
    | inl a ↦ Matched-Fits (codes "bat_") before_underscore name m Moves-underscore a
    | inr c ↦ elim (or-eq _ _ m c) [
      | inl a ↦ Matched-Fits (codes "battery") before_capital name m Moves-battery a
      | inr d ↦ elim (or-eq _ _ m d) [
        | inl a ↦ Matched-Fits (codes "maxcvbat") at_end name m Moves-maxcv a
        | inr f ↦ Matched-Fits (codes "mincvbat") at_end name m Moves-mincv f
      ]
    ]
  ]
]
