-- ===== src/Bytes/Words.antt =====
-- Big-endian words: what is packed is read back, and what is read is in range.
use gro_bro.Prelude.{ℕ, ◌/◌, ◌%◌, ◌<◌, ◌≡◌, some, [], ◌∷◌, arith, take, All}
use gro_bro.Bytes.{Bytes, IsByte, be, pack_byte, pack_word}

pub be-word : (n : ℕ) → be ((n / 256) ∷ (n % 256) ∷ []) ≡ n
be-word n = omega arith

pub pack_word_fits : (n : ℕ) → n < 65536 → pack_word n ≡ some ((n / 256) ∷ (n % 256) ∷ [])
pack_word_fits n h = ground arith

pub pack_byte_fits : (n : ℕ) → n < 256 → pack_byte n ≡ some (n ∷ [])
pack_byte_fits n h = ground arith

pub be_two-lt : (bs : Bytes) → All IsByte bs → be (take 2 bs) < 65536
be_two-lt [] h = omega arith
be_two-lt (a ∷ []) h = omega arith
be_two-lt (a ∷ b ∷ bs) h = omega arith

-- Two bytes are the word that they stand for, packed again.
pub word-be :
    (a b : ℕ)
    → IsByte a
    → IsByte b
    → ◌≡◌ {A = Bytes} ((be (a ∷ b ∷ []) / 256) ∷ (be (a ∷ b ∷ []) % 256) ∷ []) (a ∷ b ∷ [])
word-be a b ha hb = ground arith
