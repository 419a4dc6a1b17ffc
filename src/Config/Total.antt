-- ===== src/Config/Total.antt =====
-- The loops of the configuration parser end, and what a config response answers.
use gro_bro.Prelude.{
  ℕ, zero, suc, ◌+◌, ◌-◌, ◌≤◌, ◌<◌, ◌≡◌, refl, ◌≢◌, ◌⊎◌, inl, inr, List, [], ◌∷◌, arith, ltb,
  ltb_false→le, le→ltb_false, Bool-cases, length, slice,
}
use gro_bro.Config.Tlv.{
  config_value, Config, set_param, config_loop, parse_config_type, Outcome, done, stuck,
}
use gro_bro.Config.Response.{
  entry_loop, legacy_entry, config_message, with_entries, parse_config_message, ok, truncated,
  Entry, ConfigMessage,
}
use gro_bro.Bytes.{Bytes, be}

config_loop-ne-stuck :
    (fuel : ℕ) (bytes : Bytes) (offset : ℕ) (config : Config)
    → length bytes - offset < fuel
    → config_loop fuel bytes offset config ≢ stuck
unfolding config_loop
config_loop-ne-stuck zero bytes offset config h = absurd (omega arith)
config_loop-ne-stuck (suc fuel) bytes offset config h =
    let key_len = be (slice (offset + 2) (offset + 4) bytes) in
    ground (
      arith,
      config_loop-ne-stuck fuel bytes (offset + 4 + key_len) (
          set_param (be (slice offset (offset + 2) bytes))
            (config_value (slice (offset + 4) (offset + 4 + key_len) bytes)) config),
    )

-- Parsing a configuration block ends on every input.
pub parse_config_type-ne-stuck :
    (bytes : Bytes) (offset : ℕ) → parse_config_type bytes offset ≢ stuck
unfolding parse_config_type
parse_config_type-ne-stuck bytes offset =
    ground (arith, config_loop-ne-stuck (suc (length bytes)) bytes offset [])

entry_loop-ne-stuck :
    (fuel : ℕ) (bytes : Bytes) (end pos : ℕ)
    → end - pos < fuel
    → entry_loop fuel bytes end pos ≢ stuck
unfolding entry_loop
entry_loop-ne-stuck zero bytes end pos h = absurd (omega arith)
entry_loop-ne-stuck (suc fuel) bytes end pos h =
    let value_len = be (slice (pos + 2) (pos + 4) bytes) in
    ground (arith, entry_loop-ne-stuck fuel bytes end (pos + 4 + value_len))

with_entries-ok :
    (bytes : Bytes) (o : Outcome (List Entry))
    → o ≢ stuck
    → 47 ≤ length bytes
    → (m : ConfigMessage) × (with_entries bytes o ≡ ok m)
with_entries-ok bytes (done (e ∷ es)) h long = (config_message bytes e es, refl)
with_entries-ok bytes (done []) h long =
    (config_message bytes (legacy_entry bytes) [], rw (le→ltb_false (length bytes) 47 long))
with_entries-ok bytes stuck h long = absurd (h refl)

answered :
    (bytes : Bytes) → 47 ≤ length bytes → (m : ConfigMessage) × (parse_config_message bytes ≡ ok m)
unfolding parse_config_message
answered bytes long =
    let found = entry_loop (suc (length bytes)) bytes (length bytes - 2) 41 in
    let ends = entry_loop-ne-stuck (suc (length bytes)) bytes (length bytes - 2) 41 (omega arith) in
    rw (le→ltb_false (length bytes) 47 long) (with_entries-ok bytes found ends long)

-- A config response shorter than 47 bytes is the error `truncated`; any other is parsed to a message.
-- The second error of the code, for a response with no value, is never raised.
pub parse_config_message_cases :
    (bytes : Bytes)
    → ((length bytes < 47) × (parse_config_message bytes ≡ truncated))
      ⊎ ((47 ≤ length bytes) × (m : ConfigMessage) × (parse_config_message bytes ≡ ok m))
unfolding parse_config_message
parse_config_message_cases bytes = elim (Bool-cases (ltb (length bytes) 47)) [
  | inl short ↦ inl (ground arith, ground arith)
  | inr long ↦
      let enough = ltb_false→le (length bytes) 47 long in
      let (m, parsed) = answered bytes enough in inr (enough, m, parsed)
]
