-- ===== src/Noah/Largest.antt =====
-- `find_embedded_register_block` finds the largest block of all that fit, or there is none.
use gro_bro.Prelude.{
  ℕ, ◌+◌, ◌-◌, ◌*◌, ◌/◌, ◌≤◌, ◌<◌, ◌≡◌, refl, ◌⊎◌, inl, inr, true, false, none, some, [], ◌∷◌,
  arith, Bool-cases, length, drop, slice, length-take, length-drop,
}
use gro_bro.Bytes.{Bytes}
use gro_bro.Noah.Embedded.{
  words, count_at, is_candidate, search_start, search_rounds, find_best, block_at,
  find_embedded_register_block, EmbeddedBlock,
}
use gro_bro.Noah.Search.{candidate_fits, IsEvenFrom, search_loop-first}

-- Every candidate, at whatever offset, is among the offsets that the loop looks at.
candidate_in_range :
    (bytes : Bytes) (data_end j : ℕ)
    → is_candidate bytes data_end j ≡ true
    → IsEvenFrom (search_start data_end) j
      × (j < search_start data_end + search_rounds data_end * 2)
unfolding search_start search_rounds
candidate_in_range bytes data_end j h =
    let (ordered, small, fit) = candidate_fits bytes data_end j h in ground arith

abbrev pub IsLargest : Bytes → ℕ → ℕ → Type 0
IsLargest bytes data_end o =
    (is_candidate bytes data_end o ≡ true)
    × ((j : ℕ) → is_candidate bytes data_end j ≡ true → count_at bytes j ≤ count_at bytes o)

smaller :
    (bytes : Bytes) (data_end o j : ℕ)
    → is_candidate bytes data_end o ≡ true
    → is_candidate bytes data_end j ≡ true
    → o ≤ j
    → count_at bytes j ≤ count_at bytes o
smaller bytes data_end o j here there le =
    let (ordered, small, fit) = candidate_fits bytes data_end o here in
    let (ordered', small', fit') = candidate_fits bytes data_end j there in omega arith

-- The search that skips offsets gives what a search through all offsets would give: the largest
-- block that fits exactly, or none where no block fits at any offset.
pub find_best_lem :
    (bytes : Bytes) (data_end : ℕ)
    → ((o : ℕ) × (find_best bytes data_end ≡ some (o, count_at bytes o))
        × IsLargest bytes data_end o)
      ⊎ ((find_best bytes data_end ≡ none) × ((j : ℕ) → is_candidate bytes data_end j ≡ false))
unfolding find_best
find_best_lem bytes data_end =
    elim (search_loop-first bytes data_end (search_rounds data_end) (search_start data_end)) [
      | inl (o, found, (here, least), after) ↦ inl (
        o,
        found,
        (
          here,
          λ j c.
              let (fit, lt) = candidate_in_range bytes data_end j c in
              smaller bytes data_end o j here c (least j fit c),
        ),
      )
      | inr (found, empty) ↦ inr (
        found,
        λ j. elim (Bool-cases (is_candidate bytes data_end j)) [
          | inl c ↦ let (fit, lt) = candidate_in_range bytes data_end j c in empty j fit lt
          | inr none' ↦ none'
        ],
      )
    ]

length-words : (bs : Bytes) → length (words bs) ≡ length bs / 2
unfolding words
length-words [] = refl
length-words (a ∷ []) = refl
length-words (a ∷ b ∷ bs) = omega (arith, length-words bs)

abbrev pub Fits : Bytes → EmbeddedBlock → Type 0
Fits packet b =
    (b.start ≤ b.end)
    × (length b.values ≡ b.end - b.start + 1)
    × (length b.values ≤ 2048)
    × (54 + b.offset + 4 + length b.values * 2 + 2 ≡ length packet)
    × IsLargest (drop 54 packet) (length (drop 54 packet) - 2) b.offset

block_at-Fits :
    (packet : Bytes) (o : ℕ)
    → 62 ≤ length packet
    → IsLargest (drop 54 packet) (length (drop 54 packet) - 2) o
    → Fits packet (block_at (drop 54 packet) (length (drop 54 packet) - 2) o)
block_at-Fits packet o long largest =
    let bytes = drop 54 packet in
    let data_end = length bytes - 2 in
    let (ordered, small, fit) = candidate_fits bytes data_end o largest.0 in
    let size : length (words (slice (o + 4) data_end bytes)) ≡ count_at bytes o = omega (
      arith,
      length-words (slice (o + 4) data_end bytes),
      length-take (data_end - (o + 4)) (drop (o + 4) bytes),
      length-drop (o + 4) bytes,
    ) in
    (ordered, size, omega (arith, size), omega (arith, size, length-drop 54 packet), largest)

-- A block that is found ends exactly before the two-byte trailer of the packet, has one value for
-- each register from its start to its end, at most 2048, and is the largest that fits.
pub find_embedded_register_block-Fits :
    (packet : Bytes) (b : EmbeddedBlock)
    → find_embedded_register_block packet ≡ some b
    → Fits packet b
unfolding find_embedded_register_block
find_embedded_register_block-Fits packet b h =
    let bytes = drop 54 packet in
    let data_end = length bytes - 2 in
    let long : 62 ≤ length packet = ground arith in
    elim (find_best_lem bytes data_end) [
      | inl (o, found, largest) ↦
          let same : b ≡ block_at bytes data_end o = ground arith in
          rw same (block_at-Fits packet o long largest)
      | inr (found, empty) ↦ absurd (ground arith)
    ]
