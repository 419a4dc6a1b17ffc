-- ===== src/Bytes.antt =====
-- Python's `bytes` and `str` as lists of numbers, and what the program uses of `struct`,
-- `int.from_bytes`, `str.encode`, `bytes.decode`, `ljust` and `strip`.
pub mod Words
pub mod Strip
use gro_bro.Prelude.{
  ℕ, ◌+◌, ◌-◌, ◌*◌, ◌/◌, ◌%◌, ◌≤◌, ◌<◌, Option, none, some, List, [], ◌∷◌, ◌++◌, ltb, ◌==◌,
  if◌then◌else◌, length, replicate, all, All,
}

abbrev pub Bytes : Type 0
Bytes = List ℕ

-- A `str` is the list of its code points.
abbrev pub Text : Type 0
Text = List ℕ

abbrev pub IsByte : ℕ → Type 0
IsByte b = b < 256

abbrev pub be_from : ℕ → Bytes → ℕ
be_from acc [] = acc
be_from acc (b ∷ bs) = be_from (acc * 256 + b) bs

-- `int.from_bytes(_, "big")`, and what `struct` reads for B, H and I in big-endian order.
abbrev pub be : Bytes → ℕ
be = be_from 0

-- What `struct.pack` writes for B and H; `none` is `struct.error`, out of range.
abbrev pub pack_byte : ℕ → Option Bytes
pack_byte n = if ltb n 256 then some (n ∷ []) else none

abbrev pub pack_word : ℕ → Option Bytes
pack_word n = if ltb n 65536 then some ((n / 256) ∷ (n % 256) ∷ []) else none

-- `ljust(n, b"\x00")`
abbrev pub ljust : ℕ → Bytes → Bytes
ljust n bs = bs ++ replicate (n - length bs) 0

-- `s.encode("ascii")`; `none` is `UnicodeEncodeError`.
abbrev pub encode_ascii : Text → Option Bytes
encode_ascii s = if all (λ c. ltb c 128) s then some s else none

-- `bs.decode("ascii", errors="ignore")`
abbrev pub decode_ignore : Bytes → Text
decode_ignore [] = []
decode_ignore (b ∷ bs) = if ltb b 128 then b ∷ decode_ignore bs else decode_ignore bs

-- `bs.decode("ascii", errors="replace")`, which puts U+FFFD for every other byte.
abbrev pub decode_replace : Bytes → Text
decode_replace [] = []
decode_replace (b ∷ bs) = (if ltb b 128 then b else 0xfffd) ∷ decode_replace bs

abbrev pub lstrip : List ℕ → List ℕ
lstrip [] = []
lstrip (x ∷ xs) = if x == 0 then lstrip xs else x ∷ xs

abbrev pub cons_kept : ℕ → List ℕ → List ℕ
cons_kept x [] = if x == 0 then [] else x ∷ []
cons_kept x (y ∷ ys) = x ∷ y ∷ ys

-- `rstrip("\x00")`
abbrev pub rstrip : List ℕ → List ℕ
rstrip [] = []
rstrip (x ∷ xs) = cons_kept x (rstrip xs)

-- `strip("\x00")`
abbrev pub strip : List ℕ → List ℕ
strip xs = lstrip (rstrip xs)

-- A serial number that a zero-padded field of `n` bytes can hold: ASCII without NUL.
abbrev pub IsSerial : ℕ → Text → Type 0
IsSerial n s = All (λ c. (0 < c) × (c < 128)) s × (length s ≤ n)
