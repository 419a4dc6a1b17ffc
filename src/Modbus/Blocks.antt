-- ===== src/Modbus/Blocks.antt =====
-- The parser's loop over the register blocks: it reads what was built, and it ends.
use gro_bro.Prelude.{
  ℕ, zero, suc, ◌+◌, ◌≤◌, ◌<◌, ◌≡◌, refl, sym, ap, ◌∙◌, some, List, [], ◌∷◌, ◌++◌, append_assoc,
  arith, length, drop, All, length-append, length-drop, drop-append, drop-drop,
}
use gro_bro.Bytes.{Bytes}
use gro_bro.Modbus.Block.{
  block_size, block_bytes, build_block-IsBlock, parse_block-bytes, Block, IsBlock,
}
use gro_bro.Modbus.Message.{blocks_size, parse_blocks, parsed}
use gro_bro.Modbus.Build.{build_blocks}

abbrev pub blocks_bytes : List Block → Bytes
blocks_bytes [] = []
blocks_bytes (b ∷ bs) = block_bytes b ++ blocks_bytes bs

pub build_blocks-IsBlock :
    (bs : List Block) → All IsBlock bs → build_blocks bs ≡ some (blocks_bytes bs)
build_blocks-IsBlock [] h = refl
build_blocks-IsBlock (b ∷ bs) h = rw (build_block-IsBlock b h.0, build_blocks-IsBlock bs h.1)

pub length-blocks_bytes : (bs : List Block) → length (blocks_bytes bs) ≡ blocks_size bs
length-blocks_bytes [] = refl
length-blocks_bytes (b ∷ bs) =
    omega (arith, length-append (block_bytes b) (blocks_bytes bs), length-blocks_bytes bs)

pub length-le-blocks_size : (bs : List Block) → length bs ≤ blocks_size bs
length-le-blocks_size [] = omega arith
length-le-blocks_size (b ∷ bs) = omega (arith, length-le-blocks_size bs)

-- What follows a block starts where the block ends.
drop_past_block :
    (b : Block) (buffer : Bytes) (offset : ℕ) (rest : Bytes)
    → drop offset buffer ≡ block_bytes b ++ rest
    → drop (offset + block_size b) buffer ≡ rest
drop_past_block b buffer offset rest e =
    sym (drop-drop offset (block_size b) buffer)
    ∙ rw e (drop-append (block_size b) (block_bytes b) rest (omega arith))

pub parse_blocks-bytes :
    (bs : List Block) (fuel : ℕ) (buffer : Bytes) (offset : ℕ) (rest : Bytes)
    → All IsBlock bs
    → length rest < 6
    → drop offset buffer ≡ blocks_bytes bs ++ rest
    → length bs < fuel
    → parse_blocks fuel buffer offset ≡ parsed (bs, offset + blocks_size bs)
unfolding parse_blocks
parse_blocks-bytes bs zero buffer offset rest h short e f = absurd (omega arith)
parse_blocks-bytes [] (suc fuel) buffer offset rest h short e f =
    rw (← length-drop offset buffer, e) (ground arith)
parse_blocks-bytes (b ∷ bs) (suc fuel) buffer offset rest h short e f =
    let here = e ∙ append_assoc (block_bytes b) (blocks_bytes bs) rest in
    ground (
      arith,
      length-drop offset buffer,
      ap length here,
      length-append b.values (blocks_bytes bs ++ rest),
      parse_block-bytes b buffer offset (blocks_bytes bs ++ rest) h.0 here,
      parse_blocks-bytes bs fuel buffer (offset + block_size b) rest h.1 short
          (drop_past_block b buffer offset (blocks_bytes bs ++ rest) here) (omega arith),
    )
