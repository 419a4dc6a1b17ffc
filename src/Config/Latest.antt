-- ===== src/Config/Latest.antt =====
-- What a list of settings comes to: each key once, where it was first set, with its last value.
use gro_bro.Prelude.{
  ℕ, Bool, true, false, ◌≡◌, refl, sym, ap, ◌∙◌, inl, inr, Option, none, some, List, [], ◌∷◌, ◌++◌,
  ◌==◌, if◌then◌else◌, Bool-cases, map, arith, ==_iff,
}

module _ {V : Type 0} where
  abbrev pub first_of : ℕ × V → ℕ
  first_of (k, v) = k

  abbrev pub value_at : ℕ → List (ℕ × V) → Option V
  value_at k [] = none
  value_at k ((j, w) ∷ d) = if j == k then some w else value_at k d

  -- The last value that is set for a key.
  abbrev pub latest : ℕ → List (ℕ × V) → Option V → Option V
  latest k [] found = found
  latest k ((j, w) ∷ d) found = latest k d (if j == k then some w else found)

abbrev pub has_key : ℕ → List ℕ → Bool
has_key k [] = false
has_key k (j ∷ ks) = if j == k then true else has_key k ks

-- The keys in the order in which each is met for the first time, behind those already seen.
abbrev pub first_met : List ℕ → List ℕ → List ℕ
first_met seen [] = seen
first_met seen (k ∷ ks) = first_met (if has_key k seen then seen else seen ++ k ∷ []) ks

-- A dict made by the settings, in their order.
abbrev pub IsLatest : {V : Type 0} → List (ℕ × V) → List (ℕ × V) → Type 0
IsLatest dict settings =
    (map first_of dict ≡ first_met [] (map first_of settings))
    × ((k : ℕ) → value_at k dict ≡ latest k settings none)

cons_if :
    (j k : ℕ) (ks : List ℕ) (b : Bool)
    → j ∷ (if b then ks else ks ++ k ∷ []) ≡ (if b then j ∷ ks else j ∷ ks ++ k ∷ [])
cons_if j k ks true = refl
cons_if j k ks false = refl

module _ {V : Type 0} where
  -- A value put into a dict: over the value of its key, or at the end.
  abbrev pub put : ℕ → V → List (ℕ × V) → List (ℕ × V)
  put k v [] = (k, v) ∷ []
  put k v ((j, w) ∷ d) = if j == k then (k, v) ∷ d else (j, w) ∷ put k v d

  abbrev pub put_all : List (ℕ × V) → List (ℕ × V) → List (ℕ × V)
  put_all [] d = d
  put_all ((k, v) ∷ ps) d = put_all ps (put k v d)

  keys-put :
      (k : ℕ) (v : V) (d : List (ℕ × V))
      → map first_of (put k v d)
        ≡ (if has_key k (map first_of d) then map first_of d else map first_of d ++ k ∷ [])
  keys-put k v [] = refl
  keys-put k v ((j, w) ∷ d) = elim (Bool-cases (j == k)) [
    | inl same ↦ rw same (ap (λ (i : ℕ). i ∷ map first_of d) (sym ((==_iff j k).0 same)))
    | inr other ↦
        rw (other, keys-put k v d) (cons_if j k (map first_of d) (has_key k (map first_of d)))
  ]

  value_at-put :
      (i k : ℕ) (v : V) (d : List (ℕ × V))
      → value_at i (put k v d) ≡ (if k == i then some v else value_at i d)
  value_at-put i k v [] = refl
  value_at-put i k v ((j, w) ∷ d) = elim (Bool-cases (j == k)) [
    | inl same ↦ ground (arith, same)
    | inr other ↦ ground (arith, other, value_at-put i k v d)
  ]

  keys-put_all :
      (ps d : List (ℕ × V))
      → map first_of (put_all ps d) ≡ first_met (map first_of d) (map first_of ps)
  keys-put_all [] d = refl
  keys-put_all ((k, v) ∷ ps) d =
      keys-put_all ps (put k v d)
      ∙ ap (λ (s : List ℕ). first_met s (map first_of ps)) (keys-put k v d)

  value_at-put_all :
      (ps d : List (ℕ × V)) (i : ℕ) → value_at i (put_all ps d) ≡ latest i ps (value_at i d)
  value_at-put_all [] d i = refl
  value_at-put_all ((k, v) ∷ ps) d i =
      value_at-put_all ps (put k v d) i ∙ ap (latest i ps) (value_at-put i k v d)

  pub put_all-IsLatest : (ps : List (ℕ × V)) → IsLatest (put_all ps []) ps
  put_all-IsLatest ps = (keys-put_all ps [], value_at-put_all ps [])
