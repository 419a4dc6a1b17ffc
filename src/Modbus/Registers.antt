-- ===== src/Modbus/Registers.antt =====
-- `GrowattModbusMessage.get_data`: the bytes of a register position in the blocks of a message.
-- `offset` and `size` come from the register maps and are not negative.
use gro_bro.Prelude.{
  ℕ, ◌+◌, ◌-◌, ◌*◌, ◌≤◌, ◌≡◌, refl, ◌∙◌, Bool, true, false, ◌||◌, Option, none, some, List, [], ◌∷◌,
  ◌++◌, arith, ltb, if◌then◌else◌, length, drop, All, slice, length-take, length-drop,
}
use gro_bro.Modbus.Block.{Block, IsBlock}
use gro_bro.Bytes.{Bytes}

pub record Position : Type 0 where
  pub register_no : ℕ
  pub offset : ℕ
  pub size : ℕ

abbrev pub is_outside : Block → Position → Bool
is_outside b pos = ltb pos.register_no b.start || ltb b.end pos.register_no

unfoldable pub block_data : Block → Position → Option Bytes
block_data b pos =
    let block_pos = (pos.register_no - b.start) * 2 + pos.offset in
    let end_pos = block_pos + pos.size in
    if ltb (length b.values) end_pos then none else some (slice block_pos end_pos b.values)

-- The loop over the blocks: the first that covers the register answers.
unfoldable pub scan_blocks : List Block → Position → Option Bytes
scan_blocks [] pos = none
scan_blocks (b ∷ bs) pos =
    let rest = scan_blocks bs pos in if is_outside b pos then rest else block_data b pos

-- One block is looked at without the loop.
unfoldable pub get_data : List Block → Position → Option Bytes
unfolding scan_blocks
get_data (b ∷ []) pos = if is_outside b pos then none else block_data b pos
get_data bs pos = scan_blocks bs pos

-- The short cut for a single block gives what the loop gives.
pub get_data-eq-scan_blocks :
    (blocks : List Block) (pos : Position) → get_data blocks pos ≡ scan_blocks blocks pos
unfolding get_data scan_blocks
get_data-eq-scan_blocks [] pos = refl
get_data-eq-scan_blocks (b ∷ []) pos = refl
get_data-eq-scan_blocks (b ∷ c ∷ bs) pos = refl

abbrev pub data_at : Block → Position → Bytes
data_at b pos =
    let block_pos = (pos.register_no - b.start) * 2 + pos.offset in
    slice block_pos (block_pos + pos.size) b.values

block_data-inside :
    (b : Block) (pos : Position)
    → IsBlock b
    → is_outside b pos ≡ false
    → pos.offset + pos.size ≤ 2
    → (block_data b pos ≡ some (data_at b pos)) × (length (data_at b pos) ≡ pos.size)
unfolding block_data
block_data-inside b pos h inside fits =
    let block_pos = (pos.register_no - b.start) * 2 + pos.offset in
    ground (
      arith,
      length-take (block_pos + pos.size - block_pos) (drop block_pos b.values),
      length-drop block_pos b.values,
    )

scan_blocks-first :
    (before after : List Block) (b : Block) (pos : Position)
    → All (λ a. is_outside a pos ≡ true) before
    → is_outside b pos ≡ false
    → scan_blocks (before ++ b ∷ after) pos ≡ block_data b pos
unfolding scan_blocks
scan_blocks-first [] after b pos out inside = rw inside
scan_blocks-first (a ∷ before) after b pos out inside =
    rw out.0 (scan_blocks-first before after b pos out.1 inside)

-- A position inside one register is answered, with as many bytes as it asks for, by the first block
-- that covers the register, if that block is well formed.
pub get_data-covered :
    (before after : List Block) (b : Block) (pos : Position)
    → All (λ a. is_outside a pos ≡ true) before
    → is_outside b pos ≡ false
    → IsBlock b
    → pos.offset + pos.size ≤ 2
    → (get_data (before ++ b ∷ after) pos ≡ some (data_at b pos))
      × (length (data_at b pos) ≡ pos.size)
get_data-covered before after b pos out inside h fits =
    let (found, size) = block_data-inside b pos h inside fits in
    (
      get_data-eq-scan_blocks (before ++ b ∷ after) pos
          ∙ scan_blocks-first before after b pos out inside
          ∙ found,
      size,
    )
