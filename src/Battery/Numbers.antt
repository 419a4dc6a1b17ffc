-- ===== src/Battery/Numbers.antt =====
-- The numbers that stand for serial numbers in the loops that assign slots.
use gro_bro.Prelude.{ℕ, ◌<◌, ◌≡◌, refl, [], ◌∷◌, arith, All}
use gro_bro.Bytes.{Text}
use gro_bro.Battery.Payload.{serial_number}

abbrev pub IsCodePoint : ℕ → Type 0
IsCodePoint c = c < 1114112

-- Of two different texts the numbers are different.
pub serial_number-injective :
    (s t : Text) → All IsCodePoint s → All IsCodePoint t → serial_number s ≡ serial_number t → s ≡ t
serial_number-injective [] [] g h e = refl
serial_number-injective [] (d ∷ t) g h e = absurd (omega (arith, e))
serial_number-injective (c ∷ s) [] g h e = absurd (omega (arith, e))
serial_number-injective (c ∷ s) (d ∷ t) g h e =
    let head : c ≡ d = omega (arith, e, g.0, h.0) in
    let tail : serial_number s ≡ serial_number t = omega (arith, e, g.0, h.0) in
    rw (head, serial_number-injective s t g.1 h.1 tail) refl
