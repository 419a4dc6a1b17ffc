-- ===== src/Noah/Embedded.antt =====
-- `find_embedded_register_block` of grobro/grobro/noah_0103.py: the register block in a message of
-- type 0x0103 that ends exactly before the two-byte trailer.
use gro_bro.Prelude.{
  ℕ, zero, suc, ◌+◌, ◌-◌, ◌*◌, ◌/◌, ◌%◌, Bool, not, ◌&&◌, ◌||◌, Option, none, some, List, [], ◌∷◌,
  ltb, ◌==◌, if◌then◌else◌, length, drop, slice,
}
use gro_bro.Bytes.{Bytes, be}

pub record EmbeddedBlock : Type 0 where
  pub offset : ℕ
  pub start : ℕ
  pub end : ℕ
  pub values : List ℕ

-- `struct.iter_unpack(">H", _)` over an even number of bytes.
unfoldable pub words : Bytes → List ℕ
words (a ∷ b ∷ bs) = be (a ∷ b ∷ []) ∷ words bs
words _ = []

abbrev pub start_at : Bytes → ℕ → ℕ
start_at bytes offset = be (slice offset (offset + 2) bytes)

abbrev pub end_at : Bytes → ℕ → ℕ
end_at bytes offset = be (slice (offset + 2) (offset + 4) bytes)

abbrev pub count_at : Bytes → ℕ → ℕ
count_at bytes offset = end_at bytes offset - start_at bytes offset + 1

-- The tests of the loop that end in `continue`.
unfoldable pub is_candidate : Bytes → ℕ → ℕ → Bool
is_candidate bytes data_end offset =
    not (ltb (end_at bytes offset) (start_at bytes offset))
    && not (
        ltb 2048 (count_at bytes offset)
        || not (offset + 4 + count_at bytes offset * 2 == data_end))

-- `best` and `best_count`: an offset with its count.
abbrev pub Best : Type 0
Best = Option (ℕ × ℕ)

abbrev pub best_count : Best → ℕ
best_count none = 0
best_count (some (o, c)) = c

unfoldable pub better : Bytes → ℕ → ℕ → Best → Best
better bytes data_end offset best =
    if is_candidate bytes data_end offset && ltb (best_count best) (count_at bytes offset)
    then some (offset, count_at bytes offset)
    else best

-- `for offset in range(offset, stop, 2)`, by the number of rounds.
unfoldable pub search_loop : Bytes → ℕ → ℕ → ℕ → Best → Best
search_loop bytes data_end zero offset best = best
search_loop bytes data_end (suc rounds) offset best =
    search_loop bytes data_end rounds (offset + 2) (better bytes data_end offset best)

-- An exact fit needs an even distance to the end, and at most 2048 registers.
unfoldable pub search_start : ℕ → ℕ
search_start data_end = let first = data_end - 4 - 2048 * 2 in first + (data_end - first) % 2

-- The number of offsets in `range(search_start, data_end - 5, 2)`.
unfoldable pub search_rounds : ℕ → ℕ
search_rounds data_end = (data_end - 5 - search_start data_end + 1) / 2

unfoldable pub find_best : Bytes → ℕ → Best
find_best bytes data_end =
    search_loop bytes data_end (search_rounds data_end) (search_start data_end) none

abbrev pub block_at : Bytes → ℕ → ℕ → EmbeddedBlock
block_at bytes data_end offset = record {
  offset = offset;
  start = start_at bytes offset;
  end = end_at bytes offset;
  values = words (slice (offset + 4) data_end bytes);
}

abbrev pub found_block : Bytes → ℕ → Best → Option EmbeddedBlock
found_block bytes data_end none = none
found_block bytes data_end (some (offset, count)) = some (block_at bytes data_end offset)

unfoldable pub find_embedded_register_block : Bytes → Option EmbeddedBlock
find_embedded_register_block packet =
    let bytes = drop 54 packet in
    let data_end = length bytes - 2 in
    if ltb (length packet) (24 + 30 + 6 + 2)
    then none
    else found_block bytes data_end (find_best bytes data_end)
