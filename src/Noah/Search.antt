-- ===== src/Noah/Search.antt =====
-- The search for an embedded block finds the largest one, though it looks at few offsets.
use gro_bro.Prelude.{
  ℕ, zero, suc, ◌+◌, ◌-◌, ◌*◌, ◌%◌, ◌≤◌, ◌<◌, ◌≡◌, refl, ap, ◌⊎◌, inl, inr, true, false, none, some,
  arith, lt→ltb, le→ltb_false, Bool-cases,
}
use gro_bro.Noah.Embedded.{start_at, end_at, count_at, is_candidate, Best, better, search_loop}
use gro_bro.Bytes.{Bytes}

-- What a candidate satisfies, in numbers.
pub candidate_fits :
    (bytes : Bytes) (data_end offset : ℕ)
    → is_candidate bytes data_end offset ≡ true
    → (start_at bytes offset ≤ end_at bytes offset)
      × (count_at bytes offset ≤ 2048)
      × (offset + 4 + count_at bytes offset * 2 ≡ data_end)
unfolding is_candidate
candidate_fits bytes data_end offset h = ground arith

-- A later candidate is smaller, so a candidate that was found is kept.
better-kept :
    (bytes : Bytes) (data_end offset o : ℕ)
    → o < offset
    → o + 4 + count_at bytes o * 2 ≡ data_end
    → better bytes data_end offset (some (o, count_at bytes o)) ≡ some (o, count_at bytes o)
unfolding better
better-kept bytes data_end offset o lt fit =
    elim (Bool-cases (is_candidate bytes data_end offset)) [
      | inl yes' ↦
          let (ordered, small, fit') = candidate_fits bytes data_end offset yes' in
          rw (yes', le→ltb_false (count_at bytes o) (count_at bytes offset) (omega arith))
      | inr no' ↦ rw no'
    ]

search_loop-kept :
    (bytes : Bytes) (data_end rounds offset o : ℕ)
    → o < offset
    → o + 4 + count_at bytes o * 2 ≡ data_end
    → search_loop bytes data_end rounds offset (some (o, count_at bytes o))
      ≡ some (o, count_at bytes o)
unfolding search_loop
search_loop-kept bytes data_end zero offset o lt fit = refl
search_loop-kept bytes data_end (suc rounds) offset o lt fit =
    rw (better-kept bytes data_end offset o lt fit)
      (search_loop-kept bytes data_end rounds (offset + 2) o (omega arith) fit)

better-new :
    (bytes : Bytes) (data_end offset : ℕ)
    → is_candidate bytes data_end offset ≡ true
    → better bytes data_end offset none ≡ some (offset, count_at bytes offset)
unfolding better
better-new bytes data_end offset h = rw (h, lt→ltb 0 (count_at bytes offset) (omega arith))

-- `j` is one of the offsets that a loop from `offset` on looks at, if it runs long enough.
abbrev pub IsEvenFrom : ℕ → ℕ → Type 0
IsEvenFrom offset j = (offset ≤ j) × ((j - offset) % 2 ≡ 0)

IsEvenFrom-cases : (offset j : ℕ) → IsEvenFrom offset j → (j ≡ offset) ⊎ IsEvenFrom (offset + 2) j
IsEvenFrom-cases offset j h = ground arith

abbrev pub IsFirst : Bytes → ℕ → ℕ → ℕ → Type 0
IsFirst bytes data_end offset o =
    (is_candidate bytes data_end o ≡ true)
    × ((j : ℕ) → IsEvenFrom offset j → is_candidate bytes data_end j ≡ true → o ≤ j)

abbrev pub HasNone : Bytes → ℕ → ℕ → ℕ → Type 0
HasNone bytes data_end rounds offset =
    (j : ℕ) → IsEvenFrom offset j → j < offset + rounds * 2 → is_candidate bytes data_end j ≡ false

better-none :
    (bytes : Bytes) (data_end offset : ℕ)
    → is_candidate bytes data_end offset ≡ false
    → better bytes data_end offset none ≡ none
unfolding better
better-none bytes data_end offset h = rw h

-- An offset that is no candidate is passed over.
skip-IsFirst :
    (bytes : Bytes) (data_end offset o : ℕ)
    → is_candidate bytes data_end offset ≡ false
    → IsFirst bytes data_end (offset + 2) o
    → IsFirst bytes data_end offset o
skip-IsFirst bytes data_end offset o miss (here, least) = (
  here,
  λ j e c. elim (IsEvenFrom-cases offset j e) [
    | inl same ↦ cc (ap (is_candidate bytes data_end) same)
    | inr later ↦ least j later c
  ],
)

skip_none :
    (bytes : Bytes) (data_end rounds offset : ℕ)
    → is_candidate bytes data_end offset ≡ false
    → HasNone bytes data_end rounds (offset + 2)
    → HasNone bytes data_end (suc rounds) offset
skip_none bytes data_end rounds offset miss empty j e lt = elim (IsEvenFrom-cases offset j e) [
  | inl same ↦ rw same miss
  | inr later ↦ empty j later (omega arith)
]

abbrev pub Answer : Bytes → ℕ → ℕ → ℕ → Best → Type 0
Answer bytes data_end rounds offset best =
    ((o : ℕ) × (best ≡ some (o, count_at bytes o)) × IsFirst bytes data_end offset o × (offset ≤ o))
    ⊎ ((best ≡ none) × HasNone bytes data_end rounds offset)

skip :
    (bytes : Bytes) (data_end rounds offset : ℕ) (best : Best)
    → is_candidate bytes data_end offset ≡ false
    → Answer bytes data_end rounds (offset + 2) best
    → Answer bytes data_end (suc rounds) offset best
skip bytes data_end rounds offset best miss (inl (o, found, first, after)) =
    inl (o, found, skip-IsFirst bytes data_end offset o miss first, omega arith)
skip bytes data_end rounds offset best miss (inr (found, empty)) =
    inr (found, skip_none bytes data_end rounds offset miss empty)

-- The answer of the loop: the first candidate that it meets, or none where there is none.
pub search_loop-first :
    (bytes : Bytes) (data_end rounds offset : ℕ)
    → Answer bytes data_end rounds offset (search_loop bytes data_end rounds offset none)
unfolding search_loop
search_loop-first bytes data_end zero offset = inr (refl, λ j e h. absurd (omega arith))
search_loop-first bytes data_end (suc rounds) offset =
    elim (Bool-cases (is_candidate bytes data_end offset)) [
      | inl here ↦
          let (ordered, small, fit) = candidate_fits bytes data_end offset here in
          inl (
            offset,
            rw (better-new bytes data_end offset here)
                (search_loop-kept bytes data_end rounds (offset + 2) offset (omega arith) fit),
            (here, λ j e c. e.0),
            omega arith,
          )
      | inr not_here ↦ rw (better-none bytes data_end offset not_here) (
          skip bytes data_end rounds offset _ not_here
            (search_loop-first bytes data_end rounds (offset + 2)))
    ]
