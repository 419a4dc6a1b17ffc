-- ===== src/Builder/Scramble.antt =====
-- The scrambling of builder.py: its own inverse, and byte by byte what the mask says.
use mathlib.Core.Option
use gro_bro.Prelude.{
  ℕ, zero, suc, ◌+◌, ◌%◌, ◌≤◌, ◌<◌, bit_xor, ◌≡◌, refl, ap, ◌∙◌, inl, inr, Bool, true, ◌&&◌, Option,
  List, [], ◌∷◌, ◌++◌, arith, ltb, ◌==◌, if◌then◌else◌, Bool-cases, length, get_elem?, take, drop,
  all, All, length-append, take-append-drop, All-drop, get_or,
}
use gro_bro.Builder.{scramble_mask, scramble_from, scramble}
use gro_bro.Bytes.{Bytes, IsByte}

-- The numbers from `start` on, `count` of them.
count_up : ℕ → ℕ → List ℕ
count_up start zero = []
count_up start (suc count) = start ∷ count_up (start + 1) count

all-count_up :
    (test : ℕ → Bool) (start count k : ℕ)
    → start ≤ k
    → k < start + count
    → all test (count_up start count) ≡ true
    → test k ≡ true
unfolding count_up
all-count_up test start zero k from until checked = absurd (omega arith)
all-count_up test start (suc count) k from until checked = elim (Bool-cases (k == start)) [
  | inl first ↦ ground arith
  | inr later ↦ all-count_up test (start + 1) count k (ground arith) (omega arith) (ground arith)
]

abbrev mask_at : ℕ → ℕ
mask_at i = get_or scramble_mask i 0

-- One byte of the mask takes a byte to a byte and back.
abbrev is_undone : ℕ → ℕ → Bool
is_undone i b =
    let masked_byte = bit_xor b (mask_at i) in
    bit_xor masked_byte (mask_at i) == b && ltb masked_byte 256

-- All bytes, under all bytes of the mask.
bytes_undone : all (λ i. all (is_undone i) (count_up 0 256)) (count_up 0 7) ≡ true
unfolding count_up
bytes_undone = refl

mask_undone : (i b : ℕ) → i < 7 → b < 256 → is_undone i b ≡ true
mask_undone i b in_mask in_byte =
    let column =
      all-count_up (λ j. all (is_undone j) (count_up 0 256)) 0 7 i (omega arith) in_mask
        bytes_undone in
    all-count_up (is_undone i) 0 256 b (omega arith) in_byte column

abbrev next_index : ℕ → ℕ
next_index i = if i + 1 == 7 then 0 else i + 1

next_index-lt : (i : ℕ) → i < 7 → next_index i < 7
next_index-lt i h = ground arith

xor_back :
    (i x : ℕ)
    → i < 7
    → x < 256
    → bit_xor (bit_xor x (get_or scramble_mask i 0)) (get_or scramble_mask i 0) ≡ x
xor_back i x hi hx = ground (arith, mask_undone i x hi hx)

pub scramble_from-twice :
    (i : ℕ) (bs : Bytes) → i < 7 → All IsByte bs → scramble_from i (scramble_from i bs) ≡ bs
unfolding scramble_from
scramble_from-twice i [] hi h = refl
scramble_from-twice i (b ∷ bs) hi h =
    λ j. xor_back i b hi h.0 j ∷ scramble_from-twice (next_index i) bs (next_index-lt i hi) h.1 j

pub length-scramble_from : (i : ℕ) (bs : Bytes) → length (scramble_from i bs) ≡ length bs
unfolding scramble_from
length-scramble_from i [] = refl
length-scramble_from i (b ∷ bs) = ap suc (length-scramble_from (if i + 1 == 7 then 0 else i + 1) bs)

-- A prefix of at most `n` elements that is kept is split off again.
split_kept :
    (n i : ℕ) (xs : Bytes)
    → (take n (take n xs ++ scramble_from i (drop n xs)) ≡ take n xs)
      × (drop n (take n xs ++ scramble_from i (drop n xs)) ≡ scramble_from i (drop n xs))
split_kept zero i xs = (refl, refl)
split_kept (suc n) i [] = unfold scramble_from in (refl, refl)
split_kept (suc n) i (x ∷ xs) =
    let (front, back) = split_kept n i xs in (ap (λ t. x ∷ t) front, back)

-- Scrambling a packet of bytes twice gives it back, so the same function unscrambles.
pub scramble-scramble : (pkt : Bytes) → All IsByte pkt → scramble (scramble pkt) ≡ pkt
unfolding scramble
scramble-scramble pkt h =
    let (front, back) = split_kept 8 0 pkt in
    rw (front, back, scramble_from-twice 0 (drop 8 pkt) (omega arith) (All-drop IsByte 8 pkt h))
      (take-append-drop 8 pkt)

abbrev pub masked : ℕ → Option ℕ → Option ℕ
masked k o = Option.map (λ b. bit_xor b (get_or scramble_mask (k % 7) 0)) o

masked_next : (i k : ℕ) (o : Option ℕ) → i < 7 → masked (next_index i + k) o ≡ masked (i + suc k) o
masked_next i k o h =
    ap (λ m. Option.map (λ b. bit_xor b (get_or scramble_mask m 0)) o) (ground arith)

scramble_from-at :
    (i k : ℕ) (bs : Bytes)
    → i < 7
    → get_elem? (scramble_from i bs) k ≡ masked (i + k) (get_elem? bs k)
unfolding scramble_from
scramble_from-at i k [] h = refl
scramble_from-at i zero (b ∷ bs) h =
    ap (λ (m : ℕ). Option.some (bit_xor b (get_or scramble_mask m 0))) (ground arith)
scramble_from-at i (suc k) (b ∷ bs) h =
    scramble_from-at (next_index i) k bs (next_index-lt i h) ∙ masked_next i k (get_elem? bs k) h

-- A packet keeps its length and its first eight bytes, and byte 8 + k is changed by byte k of the
-- mask, which repeats after seven bytes.
pub scramble_lem :
    (pkt : Bytes) (k : ℕ)
    → (length (scramble pkt) ≡ length pkt)
      × (take 8 (scramble pkt) ≡ take 8 pkt)
      × (get_elem? (drop 8 (scramble pkt)) k ≡ masked k (get_elem? (drop 8 pkt) k))
unfolding scramble
scramble_lem pkt k =
    let (front, back) = split_kept 8 0 pkt in
    (
      rw (length-append, length-scramble_from, ← length-append, take-append-drop),
      front,
      rw back (
          scramble_from-at 0 k (drop 8 pkt) (omega arith)
          ∙ ap (λ (m : ℕ). masked m (get_elem? (drop 8 pkt) k)) (omega arith)),
    )

scramble_from-append :
    (i : ℕ) (bs cs : Bytes)
    → (t : Bytes) × (scramble_from i (bs ++ cs) ≡ scramble_from i bs ++ t) × (length t ≡ length cs)
unfolding scramble_from
scramble_from-append i [] cs = (scramble_from i cs, refl, length-scramble_from i cs)
scramble_from-append i (b ∷ bs) cs =
    let (t, e, size) = scramble_from-append (next_index i) bs cs in
    (t, ap (λ r. bit_xor b (get_or scramble_mask i 0) ∷ r) e, size)

scramble-append :
    (p cs : Bytes)
    → 8 ≤ length p
    → (t : Bytes) × (scramble (p ++ cs) ≡ scramble p ++ t) × (length t ≡ length cs)
unfolding scramble
scramble-append (a ∷ b ∷ c ∷ d ∷ e ∷ f ∷ g ∷ h ∷ p) cs long =
    let (t, same, size) = scramble_from-append 0 p cs in
    (t, ap (λ r. a ∷ b ∷ c ∷ d ∷ e ∷ f ∷ g ∷ h ∷ r) same, size)
scramble-append _ cs long = absurd (omega arith)

-- A scrambled packet with bytes appended to it unscrambles to the packet, with as many bytes behind.
pub scramble-scramble_append :
    (pkt cs : Bytes)
    → All IsByte pkt
    → 8 ≤ length pkt
    → (t : Bytes) × (scramble (scramble pkt ++ cs) ≡ pkt ++ t) × (length t ≡ length cs)
scramble-scramble_append pkt cs h long =
    let long' : 8 ≤ length (scramble pkt) = omega (arith, (scramble_lem pkt 0).0) in
    let (t, same, size) = scramble-append (scramble pkt) cs long' in
    (t, same ∙ ap (λ p. p ++ t) (scramble-scramble pkt h), size)
