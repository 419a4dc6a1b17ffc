-- ===== src/Tests/Configs.antt =====
-- Configuration blocks, responses and packets, and a NOAH message with a register block.
use gro_bro.Prelude.{
  ℕ, ◌%◌, ◌<◌, ◌≡◌, refl, ◌⊎◌, false, none, some, [], ◌∷◌, ◌++◌, map, arith, length, replicate,
}
use gro_bro.Noah.Embedded.{
  words, count_at, is_candidate, better, search_loop, search_start, search_rounds, find_best,
  find_embedded_register_block, EmbeddedBlock,
}
use gro_bro.Bytes.{Bytes, Text, IsSerial}
use gro_bro.Noah.Largest.{IsLargest, find_best_lem, Fits, find_embedded_register_block-Fits}
use gro_bro.Config.Tlv.{Config, parse_config_type, done, params}
use gro_bro.Config.Response.{entry_value, parse_config_message, ok, ConfigMessage}
use gro_bro.Config.Latest.{IsLatest}
use gro_bro.Config.RoundTrip.{tlvs_bytes, parsed, parse_config_type-tlvs}
use gro_bro.Config.Entries.{entry_of, parse_config_message-tlvs}

-- Parameter 4 is "5", parameter 31 is "on".
abbrev interval : ℕ × Bytes
interval = (4, 53 ∷ [])

abbrev state : ℕ × Bytes
state = (31, 111 ∷ 110 ∷ [])

parse_config_type-tlvs_example :
    (config : Config) × (parse_config_type
        ((1 ∷ 2 ∷ 3 ∷ []) ++ (tlvs_bytes (interval ∷ state ∷ []) ++ (9 ∷ 9 ∷ [])))
        3
      ≡ done (params config))
    × IsLatest config (map parsed (interval ∷ state ∷ []))
parse_config_type-tlvs_example =
    parse_config_type-tlvs (1 ∷ 2 ∷ 3 ∷ []) interval (state ∷ []) (9 ∷ 9 ∷ []) (ground arith)
      (omega arith)

abbrev response : Bytes
response = replicate 41 0 ++ (tlvs_bytes (interval ∷ state ∷ []) ++ (171 ∷ 205 ∷ []))

parse_config_message-tlvs_example :
    (m : ConfigMessage) × (parse_config_message response ≡ ok m)
    × (m.entries ≡ map entry_of (interval ∷ state ∷ []))
    × (m.register_no ≡ 4)
    × (m.value ≡ entry_value (53 ∷ []))
parse_config_message-tlvs_example =
    parse_config_message-tlvs (replicate 41 0) interval (state ∷ []) (171 ∷ 205 ∷ []) refl
      (ground arith) refl

-- A checksum in place of the one that the package computes.
abbrev last_sum : Bytes → ℕ
last_sum bytes = length bytes % 65536

abbrev noah : Text
noah = 48 ∷ 80 ∷ 86 ∷ 80 ∷ []

noah-IsSerial : IsSerial 16 noah
noah-IsSerial = (ground arith, omega arith)

last_sum-lt : (p : Bytes) → last_sum p < 65536
last_sum-lt p = omega arith

-- Registers 2 and 3 behind a header of 54 bytes and two more.
abbrev embedded : Bytes
embedded = 7 ∷ 7 ∷ 0 ∷ 2 ∷ 0 ∷ 3 ∷ 1 ∷ 0 ∷ 0 ∷ 9 ∷ 171 ∷ 205 ∷ []

find_best_lem_example :
    ((o : ℕ) × (find_best embedded 10 ≡ some (o, count_at embedded o)) × IsLargest embedded 10 o)
    ⊎ ((find_best embedded 10 ≡ none) × ((j : ℕ) → is_candidate embedded 10 j ≡ false))
find_best_lem_example = find_best_lem embedded 10

abbrev embedded_block : EmbeddedBlock
embedded_block = record { offset = 2; start = 2; end = 3; values = 256 ∷ 9 ∷ [] }

embedded-found : find_embedded_register_block (replicate 54 0 ++ embedded) ≡ some embedded_block
unfolding find_embedded_register_block find_best search_rounds search_start search_loop better
    is_candidate words
embedded-found = refl

find_embedded_register_block-Fits_example : Fits (replicate 54 0 ++ embedded) embedded_block
find_embedded_register_block-Fits_example =
    find_embedded_register_block-Fits (replicate 54 0 ++ embedded) embedded_block embedded-found
