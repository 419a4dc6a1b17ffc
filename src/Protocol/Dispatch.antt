-- ===== src/Protocol/Dispatch.antt =====
-- Which NOAH messages are decoded, and as what.
use gro_bro.Prelude.{
  ℕ, zero, suc, ◌+◌, ◌-◌, ◌≤◌, ◌<◌, ◌≡◌, refl, sym, ap, ◌∙◌, ◌≢◌, ◌⊎◌, inl, inr, true, false,
  Option, none, some, List, [], ◌∷◌, arith, ltb, ◌==◌, if◌then◌else◌, ltb_false→le, Bool-cases,
  length, drop, slice,
}
use gro_bro.Protocol.Decoders.{
  parse_noah_0103, set_register, pairs_loop, map_outcome, parse_noah_0110, parse_noah_0125,
  parse_noah_fe18, parse_noah_fe19, parse_noah_fe25, parse_noah_6f64, decode_as, parse_noah_message,
  Decoded, noah_0103, noah_0110, noah_0125, short_0125, noah_fe18, short_fe18, noah_fe19,
  short_fe19, noah_fe25, noah_6f64, long_6f64, short_6f64,
}
use gro_bro.Config.Tlv.{parse_config_type, find_config_offset, Outcome, done, stuck}
use gro_bro.Bytes.{Bytes, be}
use gro_bro.Config.Response.{device_text}
use gro_bro.Battery.Slots.{contains}
use gro_bro.Config.Total.{parse_config_type-ne-stuck}

abbrev pub message_type : Decoded → ℕ
message_type (noah_0103 id regs n) = 0x0103
message_type (noah_0110 id regs) = 0x0110
message_type (noah_0125 id) = 0x0125
message_type short_0125 = 0x0125
message_type (noah_fe18 id subtype n a b time) = 0xfe18
message_type short_fe18 = 0xfe18
message_type (noah_fe19 id subtype config offset) = 0xfe19
message_type short_fe19 = 0xfe19
message_type (noah_fe25 id n is_empty) = 0xfe25
message_type (noah_6f64 id meter time n json) = 0x6f64
message_type (long_6f64 id meter) = 0x6f64
message_type short_6f64 = 0x6f64

abbrev pub known_types : List ℕ
known_types = 0x0103 ∷ 0x0110 ∷ 0x0125 ∷ 0xfe18 ∷ 0xfe19 ∷ 0xfe25 ∷ 0x6f64 ∷ []

pairs_loop-ne-stuck :
    (fuel : ℕ) (body : Bytes) (pos : ℕ) (regs : List (ℕ × ℕ))
    → length body - pos < fuel
    → pairs_loop fuel body pos regs ≢ stuck
unfolding pairs_loop
pairs_loop-ne-stuck zero body pos regs h = absurd (omega arith)
pairs_loop-ne-stuck (suc fuel) body pos regs h = ground (
  arith,
  pairs_loop-ne-stuck fuel body (pos + 4)
      (set_register (be (slice pos (pos + 2) body)) (be (slice (pos + 2) (pos + 4) body)) regs),
)

-- What an outcome that is not stuck holds, with its type.
abbrev IsTyped : ℕ → Outcome Decoded → Type 0
IsTyped t o = (d : Decoded) × (o ≡ done d) × (message_type d ≡ t)

map_outcome-IsTyped :
    {A : Type 0} (f : A → Decoded) (t : ℕ) (o : Outcome A)
    → o ≢ stuck
    → ((a : A) → message_type (f a) ≡ t)
    → IsTyped t (map_outcome f o)
map_outcome-IsTyped f t (done a) ne typed = (f a, refl, typed a)
map_outcome-IsTyped f t stuck ne typed = absurd (ne refl)

parse_noah_0110-IsTyped : (bytes : Bytes) → IsTyped 0x0110 (parse_noah_0110 bytes)
unfolding parse_noah_0110
parse_noah_0110-IsTyped bytes =
    let body = drop 14 (drop 24 bytes) in
    map_outcome-IsTyped (λ regs. noah_0110 (device_text (slice 8 24 bytes)) regs) 0x0110
      (pairs_loop (suc (length body)) body 0 [])
      (pairs_loop-ne-stuck (suc (length body)) body 0 [] (omega arith)) (λ regs. refl)

parse_noah_fe19-IsTyped : (bytes : Bytes) → IsTyped 0xfe19 (parse_noah_fe19 bytes)
unfolding parse_noah_fe19
parse_noah_fe19-IsTyped bytes = elim (Bool-cases (ltb (length (drop 24 bytes)) 18)) [
  | inl short ↦ rw short (short_fe19, refl, refl)
  | inr long ↦
      let payload = drop 24 bytes in
      let offset = find_config_offset payload in
      rw long (
        map_outcome-IsTyped
          (λ config.
            noah_fe19 (device_text (slice 8 24 bytes)) (be (slice 14 16 payload)) config offset)
          0xfe19 (parse_config_type payload offset) (parse_config_type-ne-stuck payload offset)
          (λ config. refl))
]

message_type-decoders :
    (bytes : Bytes)
    → (message_type (parse_noah_0103 bytes) ≡ 0x0103)
      × (message_type (parse_noah_0125 bytes) ≡ 0x0125)
      × (message_type (parse_noah_fe18 bytes) ≡ 0xfe18)
      × (message_type (parse_noah_fe25 bytes) ≡ 0xfe25)
      × (message_type (parse_noah_6f64 bytes) ≡ 0x6f64)
unfolding parse_noah_0103 parse_noah_0125 parse_noah_fe18 parse_noah_fe25 parse_noah_6f64
message_type-decoders bytes = ground arith

-- What the dispatch answers for a type: None exactly for an unknown one.
abbrev pub IsAnswer : List ℕ → ℕ → Outcome (Option Decoded) → Type 0
IsAnswer types t o =
    ((contains t types ≡ false) × (o ≡ done none))
    ⊎ ((contains t types ≡ true) × (d : Decoded) × (o ≡ done (some d)) × (message_type d ≡ t))

if-IsAnswer :
    (types : List ℕ) (t k : ℕ) (d : Decoded) {o rest : Outcome (Option Decoded)}
    → o ≡ done (some d)
    → message_type d ≡ k
    → IsAnswer types t rest
    → IsAnswer (k ∷ types) t (if t == k then o else rest)
if-IsAnswer types t k d e typed h = elim (Bool-cases (t == k)) [
  | inl same ↦ let eq : t ≡ k = ground arith in rw same (inr (refl, d, e, typed ∙ sym eq))
  | inr other ↦ rw other h
]

decode_as-IsAnswer : (t : ℕ) (bytes : Bytes) → IsAnswer known_types t (decode_as t bytes)
unfolding decode_as
decode_as-IsAnswer t bytes =
    let (typed_0103, typed_0125, typed_fe18, typed_fe25, typed_6f64) =
      message_type-decoders bytes in
    let (pairs, found_pairs, typed_0110) = parse_noah_0110-IsTyped bytes in
    let (config, found_config, typed_fe19) = parse_noah_fe19-IsTyped bytes in
    if-IsAnswer (drop 1 known_types) t 0x0103 (parse_noah_0103 bytes) refl typed_0103 (
      if-IsAnswer (drop 2 known_types) t 0x0110 pairs (ap (map_outcome some) found_pairs) typed_0110
        (if-IsAnswer (drop 3 known_types) t 0x0125 (parse_noah_0125 bytes) refl typed_0125 (
          if-IsAnswer (drop 4 known_types) t 0xfe18 (parse_noah_fe18 bytes) refl typed_fe18 (
            if-IsAnswer (drop 5 known_types) t 0xfe19 config (ap (map_outcome some) found_config)
              typed_fe19
              (if-IsAnswer (drop 6 known_types) t 0xfe25 (parse_noah_fe25 bytes) refl typed_fe25 (
                if-IsAnswer [] t 0x6f64 (parse_noah_6f64 bytes) refl typed_6f64
                  (inl (refl, refl))))))))

-- On every input the dispatch ends. It answers None for less than eight bytes and for a type that is
-- not one of the seven known ones, and otherwise a message of the type that the bytes 6 and 7 name.
pub parse_noah_message_cases :
    (bytes : Bytes)
    → ((length bytes < 8) × (parse_noah_message bytes ≡ done none))
      ⊎ ((8 ≤ length bytes)
          × IsAnswer known_types (be (slice 6 8 bytes)) (parse_noah_message bytes))
unfolding parse_noah_message
parse_noah_message_cases bytes = elim (Bool-cases (ltb (length bytes) 8)) [
  | inl short ↦ inl (ground arith, rw short)
  | inr long ↦ inr (
    ltb_false→le (length bytes) 8 long,
    rw long (decode_as-IsAnswer (be (slice 6 8 bytes)) bytes),
  )
]
