-- ===== src/Protocol/Pairs.antt =====
-- A message of type 0x0110 made of pairs, decoded.
use gro_bro.Prelude.{
  ℕ, zero, suc, ◌+◌, ◌/◌, ◌%◌, ◌≤◌, ◌<◌, ◌≡◌, refl, sym, ap, ◌∙◌, List, [], ◌∷◌, ◌++◌, arith,
  length, drop, All, slice, length-append, length-drop, take-append, drop-append, drop-drop,
  slice-drop,
}
use gro_bro.Config.Latest.{put, put_all, IsLatest, put_all-IsLatest}
use gro_bro.Bytes.{Bytes, Text, be, ljust, IsSerial}
use gro_bro.Protocol.Decoders.{set_register, pairs_loop, parse_noah_0110, noah_0110}
use gro_bro.Config.Tlv.{done}
use gro_bro.Bytes.Words.{be-word}
use gro_bro.Bytes.Strip.{length-ljust}
use gro_bro.Config.Packets.{device_text-ljust}

-- A register and its value on the wire.
abbrev pub pairs_bytes : List (ℕ × ℕ) → Bytes
pairs_bytes [] = []
pairs_bytes ((k, v) ∷ ps) = (k / 256) ∷ (k % 256) ∷ (v / 256) ∷ (v % 256) ∷ pairs_bytes ps

abbrev pub IsPair : ℕ × ℕ → Type 0
IsPair (k, v) = (k < 65536) × (v < 65536)

-- The registers set one after the other.
abbrev set_registers : List (ℕ × ℕ) → List (ℕ × ℕ) → List (ℕ × ℕ)
set_registers [] regs = regs
set_registers ((k, v) ∷ ps) regs = set_registers ps (set_register k v regs)

set_register-put : (k v : ℕ) (regs : List (ℕ × ℕ)) → set_register k v regs ≡ put k v regs
set_register-put k v [] = refl
set_register-put k v ((j, w) ∷ regs) = rw (set_register-put k v regs) refl

set_registers-put_all : (ps regs : List (ℕ × ℕ)) → set_registers ps regs ≡ put_all ps regs
set_registers-put_all [] regs = refl
set_registers-put_all ((k, v) ∷ ps) regs =
    set_registers-put_all ps (set_register k v regs) ∙ ap (put_all ps) (set_register-put k v regs)

read_pair :
    (body : Bytes) (pos k v : ℕ) (more : Bytes)
    → drop pos body ≡ pairs_bytes ((k, v) ∷ []) ++ more
    → (be (slice pos (pos + 2) body) ≡ k)
      × (be (slice (pos + 2) (pos + 4) body) ≡ v)
      × (drop (pos + 4) body ≡ more)
      × (length body ≡ pos + 4 + length more)
read_pair body pos k v more e =
    let two : drop (pos + 2) body ≡ (v / 256) ∷ (v % 256) ∷ more =
      sym (drop-drop pos 2 body) ∙ rw e in
    (
      rw (slice-drop pos (pos + 2) 2 body refl, e) (be-word k),
      rw (slice-drop (pos + 2) (pos + 4) 2 body (omega arith), two) (be-word v),
      sym (drop-drop pos 4 body) ∙ rw e,
      omega (arith, ap length e, length-drop pos body),
    )

pairs_loop-pairs :
    (ps : List (ℕ × ℕ)) (fuel : ℕ) (body : Bytes) (pos : ℕ) (regs : List (ℕ × ℕ)) (rest : Bytes)
    → length rest < 4
    → drop pos body ≡ pairs_bytes ps ++ rest
    → length ps < fuel
    → pairs_loop fuel body pos regs ≡ done (set_registers ps regs)
unfolding pairs_loop
pairs_loop-pairs ps zero body pos regs rest short e f = absurd (omega arith)
pairs_loop-pairs [] (suc fuel) body pos regs rest short e f =
    ground (arith, length-drop pos body, ap length e)
pairs_loop-pairs ((k, v) ∷ ps) (suc fuel) body pos regs rest short e f =
    let (reg, val, next, long) = read_pair body pos k v (pairs_bytes ps ++ rest) e in
    let loop =
      pairs_loop-pairs ps fuel body (pos + 4) (set_register k v regs) rest short next
        (omega arith) in
    rw (reg, val, loop) (ground arith)

length-pairs_bytes : (ps : List (ℕ × ℕ)) → length ps ≤ length (pairs_bytes ps)
length-pairs_bytes [] = omega arith
length-pairs_bytes (p ∷ ps) = omega (arith, length-pairs_bytes ps)

-- A message of type 0x0110 whose device field holds a serial number, and whose body is pairs of a
-- register and a value, and fewer than four bytes more, is decoded to this device and a dict
-- of these pairs: its registers are those of the pairs, in the order in which each first stands there,
-- and each has the value that stands last for it.
pub parse_noah_0110-pairs :
    (head : Bytes) (id : Text) (padding : Bytes) (ps : List (ℕ × ℕ)) (rest : Bytes)
    → length head ≡ 8
    → IsSerial 16 id
    → length padding ≡ 14
    → All IsPair ps
    → length rest < 4
    → (registers : List (ℕ × ℕ)) × (parse_noah_0110
          (head ++ (ljust 16 id ++ (padding ++ (pairs_bytes ps ++ rest))))
        ≡ done (noah_0110 id registers))
      × IsLatest registers ps
unfolding parse_noah_0110
parse_noah_0110-pairs head id padding ps rest eight hi fourteen h short =
    let body = pairs_bytes ps ++ rest in
    let after = ljust 16 id ++ (padding ++ body) in
    let bytes = head ++ after in
    let sixteen = length-ljust 16 id hi.1 in
    let at_8 = drop-append 8 head after eight in
    let at_24 : drop 24 bytes ≡ padding ++ body =
      sym (drop-drop 8 16 bytes)
      ∙ rw at_8 (drop-append 16 (ljust 16 id) (padding ++ body) sixteen) in
    let fuel : length ps < suc (length body) =
      omega (arith, length-pairs_bytes ps, length-append (pairs_bytes ps) rest) in
    (
      put_all ps [],
      rw (
        at_24,
        drop-append 14 padding body fourteen,
        at_8,
        take-append 16 (ljust 16 id) (padding ++ body) sixteen,
        device_text-ljust id hi,
        pairs_loop-pairs ps (suc (length body)) body 0 [] rest short refl fuel,
        set_registers-put_all ps [],
      ),
      put_all-IsLatest ps,
    )
