-- ===== src/Tests/Protocols.antt =====
-- NOAH messages of a device "0PVP" with a meter "M1".
use gro_bro.Prelude.{
  ℕ, ◌≤◌, ◌<◌, ◌≡◌, refl, ◌⊎◌, none, List, [], ◌∷◌, ◌++◌, arith, length, replicate,
}
use gro_bro.Bytes.{Bytes, Text, ljust}
use gro_bro.Protocol.Decoders.{
  parse_noah_0110, timestamp_text, parse_noah_6f64, parse_noah_message, noah_0110, noah_6f64,
}
use gro_bro.Config.Latest.{IsLatest, put_all-IsLatest}
use gro_bro.Protocol.Pairs.{pairs_bytes, parse_noah_0110-pairs}
use gro_bro.Config.Tlv.{done}
use gro_bro.Protocol.Meter.{meter_bytes, iso_time, parse_noah_6f64-meter_bytes}
use gro_bro.Protocol.Dispatch.{known_types, IsAnswer, parse_noah_message_cases}

abbrev noah : Text
noah = 48 ∷ 80 ∷ 86 ∷ 80 ∷ []

abbrev meter : Text
meter = 77 ∷ 49 ∷ []

-- A head of type 0x0110.
abbrev head : Bytes
head = 0 ∷ 1 ∷ 0 ∷ 7 ∷ 0 ∷ 40 ∷ 1 ∷ 16 ∷ []

-- Register 250 is set twice.
abbrev pairs : List (ℕ × ℕ)
pairs = (250, 1) ∷ (31, 513) ∷ (250, 2) ∷ []

parse_noah_0110-pairs_example :
    (registers : List (ℕ × ℕ)) × (parse_noah_0110
        (head ++ (ljust 16 noah ++ (replicate 14 0 ++ (pairs_bytes pairs ++ (171 ∷ 205 ∷ [])))))
      ≡ done (noah_0110 noah registers))
    × IsLatest registers pairs
parse_noah_0110-pairs_example =
    parse_noah_0110-pairs head noah (replicate 14 0) pairs (171 ∷ 205 ∷ []) refl
      (ground arith, omega arith) refl (ground arith) (omega arith)

pairs-IsLatest : IsLatest ((250, 2) ∷ (31, 513) ∷ []) pairs
pairs-IsLatest = put_all-IsLatest pairs

parse_noah_message_cases_example :
    ((length head < 8) × (parse_noah_message head ≡ done none))
    ⊎ ((8 ≤ length head) × IsAnswer known_types 0x0110 (parse_noah_message head))
parse_noah_message_cases_example = parse_noah_message_cases head

-- 2024-02-29T12:00:30.250
abbrev noon : Bytes
noon = 24 ∷ 2 ∷ 29 ∷ 12 ∷ 0 ∷ 30 ∷ 250 ∷ []

abbrev json : Text
json = 123 ∷ 125 ∷ []

noon_as_text :
    timestamp_text noon
    ≡ 50 ∷ 48 ∷ 50 ∷ 52 ∷ 45 ∷ 48 ∷ 50 ∷ 45 ∷ 50 ∷ 57 ∷ 84 ∷ 49 ∷ 50 ∷ 58 ∷ 48 ∷ 48 ∷ 58 ∷ 51 ∷ 48
      ∷ 46 ∷ 50 ∷ 53 ∷ 48 ∷ []
unfolding timestamp_text
noon_as_text = refl

parse_noah_6f64-meter_bytes_example :
    parse_noah_6f64 (meter_bytes head noah meter noon json (171 ∷ 205 ∷ []))
    ≡ noah_6f64 noah meter (iso_time 24 2 29 12 0 30 250) 2 json
parse_noah_6f64-meter_bytes_example =
    parse_noah_6f64-meter_bytes head noah meter 24 2 29 12 0 30 250 json (171 ∷ 205 ∷ []) refl
      (ground arith, omega arith) (ground arith, omega arith) (ground arith) (ground arith)
      (omega arith)

abbrev status : Bytes
status = replicate 30 0 ++ (0 ∷ 4 ∷ 0 ∷ 1 ∷ 53 ∷ 0 ∷ 0 ∷ [])
