-- ===== src/Bytes/Strip.antt =====
-- A padded serial number, decoded and stripped, is the serial number.
use gro_bro.Prelude.{
  ℕ, zero, suc, ◌-◌, ◌≤◌, ◌<◌, ◌≡◌, refl, ap, true, some, List, [], ◌∷◌, ◌++◌, arith, ltb, length,
  replicate, all, All, length-append, length-replicate,
}
use gro_bro.Bytes.{
  Bytes, Text, ljust, encode_ascii, decode_ignore, decode_replace, lstrip, cons_kept, rstrip, strip,
  IsSerial,
}

abbrev pub IsSerialChar : ℕ → Type 0
IsSerialChar c = (0 < c) × (c < 128)

rstrip-zeros : (k : ℕ) → rstrip (replicate k 0) ≡ []
rstrip-zeros zero = refl
rstrip-zeros (suc k) = ap (cons_kept 0) (rstrip-zeros k)

cons_kept_pos : (x : ℕ) (xs : List ℕ) → 0 < x → cons_kept x xs ≡ x ∷ xs
cons_kept_pos x [] h = ground arith
cons_kept_pos x (y ∷ ys) h = refl

pub rstrip-padded : (s : Text) (k : ℕ) → All IsSerialChar s → rstrip (s ++ replicate k 0) ≡ s
rstrip-padded [] k h = rstrip-zeros k
rstrip-padded (x ∷ s) k h = rw (rstrip-padded s k h.1) (cons_kept_pos x s h.0.0)

lstrip-serial : (s : Text) → All IsSerialChar s → lstrip s ≡ s
lstrip-serial [] h = refl
lstrip-serial (x ∷ s) h = ground arith

decode_ignore-zeros : (k : ℕ) → decode_ignore (replicate k 0) ≡ replicate k 0
decode_ignore-zeros zero = refl
decode_ignore-zeros (suc k) = ap (λ t. 0 ∷ t) (decode_ignore-zeros k)

decode_ignore-padded :
    (s : Text) (k : ℕ)
    → All IsSerialChar s
    → decode_ignore (s ++ replicate k 0) ≡ s ++ replicate k 0
decode_ignore-padded [] k h = decode_ignore-zeros k
decode_ignore-padded (x ∷ s) k h = ground (arith, decode_ignore-padded s k h.1)

pub decode_replace-serial : (s : Text) → All IsSerialChar s → decode_replace s ≡ s
decode_replace-serial [] h = refl
decode_replace-serial (x ∷ s) h = ground (arith, decode_replace-serial s h.1)

pub strip-decode-ljust : (n : ℕ) (s : Text) → IsSerial n s → strip (decode_ignore (ljust n s)) ≡ s
strip-decode-ljust n s h =
    rw (decode_ignore-padded s (n - length s) h.0, rstrip-padded s (n - length s) h.0)
      (lstrip-serial s h.0)

all_ascii : (s : Text) → All IsSerialChar s → all (λ c. ltb c 128) s ≡ true
all_ascii [] h = refl
all_ascii (x ∷ s) h = ground (arith, all_ascii s h.1)

pub encode_ascii-serial : (s : Text) → All IsSerialChar s → encode_ascii s ≡ some s
encode_ascii-serial s h = rw (all_ascii s h)

pub length-ljust : (n : ℕ) (s : Bytes) → length s ≤ n → length (ljust n s) ≡ n
length-ljust n s h = rw (length-append, length-replicate) (omega arith)
