-- ===== src/Modbus/Block.antt =====
-- `GrowattModbusBlock` of grobro/model/modbus_message.py. A buffer is read from `offset` on, which
-- is never negative here.
use gro_bro.Prelude.{
  ◌>>=◌, ℕ, ◌+◌, ◌-◌, ◌*◌, ◌/◌, ◌%◌, ◌≤◌, ◌<◌, ◌≡◌, ap, ◌∙◌, Option, none, some, [], ◌∷◌, ◌++◌,
  arith, ltb, if◌then◌else◌, length, drop, All, slice, length-append, length-take, length-drop,
  take-append, drop-drop, take-append-drop, All-drop,
}
use gro_bro.Bytes.{Bytes, IsByte, be, pack_word}

pub record Block : Type 0 where
  pub start : ℕ
  pub end : ℕ
  pub values : Bytes

abbrev pub block_size : Block → ℕ
block_size b = 4 + length b.values

-- `values` may be any bytes; only `start` and `end` can be out of range for `struct.pack`.
unfoldable pub build_block : Block → Option Bytes
build_block b = do s ← pack_word b.start; e ← pack_word b.end; some ((s ++ e) ++ b.values)

-- The part of `parse_grobro` that stands behind the first test, on the bytes from `offset` on.
unfoldable pub parse_block_at : Bytes → Option Block
parse_block_at window =
    let start = be (slice 0 2 window) in
    let end = be (slice 2 4 window) in
    let expected_size = 4 + (end - start + 1) * 2 in
    if ltb end start
    then none
    else if ltb (length window) expected_size
    then none
    else some (record { start = start; end = end; values = slice 4 expected_size window })

unfoldable pub parse_block : Bytes → ℕ → Option Block
parse_block buffer offset =
    if ltb (length buffer - offset) 4 then none else parse_block_at (drop offset buffer)

-- A block whose register numbers are words, and that holds two bytes for each of its registers.
pub record IsBlock (b : Block) : Type 0 where
  pub ordered : b.start ≤ b.end
  pub in_range : b.end < 65536
  pub filled : length b.values ≡ (b.end - b.start + 1) * 2

abbrev pub block_bytes : Block → Bytes
block_bytes b = (b.start / 256) ∷ (b.start % 256) ∷ (b.end / 256) ∷ (b.end % 256) ∷ b.values

pub build_block-IsBlock : (b : Block) → IsBlock b → build_block b ≡ some (block_bytes b)
unfolding build_block
build_block-IsBlock b h = ground arith

pub parse_block_at-bytes :
    (b : Block) (rest : Bytes) → IsBlock b → parse_block_at (block_bytes b ++ rest) ≡ some b
unfolding parse_block_at
parse_block_at-bytes b rest h =
    ground
      (arith, take-append ((b.end - b.start + 1) * 2) b.values rest, length-append b.values rest)

-- Whatever parses is a block, and its bytes stand at the front of the window.
pub parse_block_at_sound :
    (window : Bytes) (b : Block)
    → All IsByte window
    → parse_block_at window ≡ some b
    → IsBlock b × (window ≡ block_bytes b ++ drop (length (block_bytes b)) window)
unfolding parse_block_at
parse_block_at_sound [] b h e = ground arith
parse_block_at_sound (p ∷ []) b h e = ground arith
parse_block_at_sound (p ∷ q ∷ []) b h e = ground arith
parse_block_at_sound (p ∷ q ∷ r ∷ []) b h e = ground arith
parse_block_at_sound (p ∷ q ∷ r ∷ s ∷ rest) b h e =
    let size = (be (r ∷ s ∷ []) - be (p ∷ q ∷ []) + 1) * 2 in
    ground (arith, take-append-drop size rest, length-take size rest)

-- A block whose bytes stand at `offset` is read from there, whatever follows.
pub parse_block-bytes :
    (b : Block) (buffer : Bytes) (offset : ℕ) (rest : Bytes)
    → IsBlock b
    → drop offset buffer ≡ block_bytes b ++ rest
    → parse_block buffer offset ≡ some b
unfolding parse_block
parse_block-bytes b buffer offset rest h e =
    rw (← length-drop offset buffer, e, parse_block_at-bytes b rest h) (ground arith)

-- Whatever parses at `offset` is a block, and its bytes stand there.
pub parse_block_sound :
    (buffer : Bytes) (offset : ℕ) (b : Block)
    → All IsByte buffer
    → parse_block buffer offset ≡ some b
    → IsBlock b × (drop offset buffer ≡ block_bytes b ++ drop (offset + block_size b) buffer)
unfolding parse_block
parse_block_sound buffer offset b h e =
    let found : parse_block_at (drop offset buffer) ≡ some b = ground arith in
    let (valid, bytes) =
      parse_block_at_sound (drop offset buffer) b (All-drop IsByte offset buffer h) found in
    let size : length (block_bytes b) ≡ block_size b = omega arith in
    (valid, bytes ∙ ap (λ t. block_bytes b ++ t) (rw size (drop-drop offset (block_size b) buffer)))
