-- ===== src/Config/Entries.antt =====
-- Config responses and configuration packets, read back from their bytes.
use gro_bro.Prelude.{
  ℕ, zero, suc, ◌+◌, ◌-◌, ◌≤◌, ◌<◌, ◌≡◌, refl, ap, ◌∙◌, List, [], ◌∷◌, ◌++◌, map, append_assoc,
  arith, le→ltb_false, length, drop, All, length-append, length-drop, drop-append,
}
use gro_bro.Config.Response.{
  entry_value, entry_loop, config_message, parse_config_message, ok, Entry, ConfigMessage,
}
use gro_bro.Bytes.{Bytes}
use gro_bro.Config.RoundTrip.{tlv_bytes, tlvs_bytes, IsTlv, read_tlv, length-tlvs_bytes}
use gro_bro.Config.Tlv.{done}

-- The entry that a TLV of a response gives.
abbrev pub entry_of : ℕ × Bytes → Entry
entry_of (k, v) = record { register_no = k; value = entry_value v }

entry_loop-tlvs :
    (ps : List (ℕ × Bytes)) (fuel : ℕ) (bytes : Bytes) (end pos : ℕ) (rest : Bytes)
    → All (IsTlv 65535) ps
    → drop pos bytes ≡ tlvs_bytes ps ++ rest
    → length bytes ≡ end + length rest
    → length ps < fuel
    → entry_loop fuel bytes end pos ≡ done (map entry_of ps)
unfolding entry_loop
entry_loop-tlvs ps zero bytes end pos rest h e size f = absurd (omega arith)
entry_loop-tlvs [] (suc fuel) bytes end pos rest h e size f =
    ground (arith, length-drop pos bytes, ap length e)
entry_loop-tlvs ((k, v) ∷ ps) (suc fuel) bytes end pos rest h e size f =
    let (key, len, val, next, long) =
      read_tlv bytes pos k v (tlvs_bytes ps ++ rest)
        (e ∙ append_assoc (tlv_bytes (k, v)) (tlvs_bytes ps) rest) in
    let loop =
      entry_loop-tlvs ps fuel bytes end (pos + 4 + length v) rest h.1 next size (omega arith) in
    rw (key, len, val, loop) (ground (arith, length-append (tlvs_bytes ps) rest))

response_size :
    (header : Bytes) (p : ℕ × Bytes) (ps : List (ℕ × Bytes)) (trailer : Bytes)
    → length header ≡ 41
    → length trailer ≡ 2
    → let bytes = header ++ (tlvs_bytes (p ∷ ps) ++ trailer) in
      (47 ≤ length bytes)
      × (length bytes ≡ length bytes - 2 + length trailer)
      × (length (p ∷ ps) < suc (length bytes))
response_size header p ps trailer size two = omega (
  arith,
  length-append header (tlvs_bytes (p ∷ ps) ++ trailer),
  length-append (tlvs_bytes (p ∷ ps)) trailer,
  length-append (tlv_bytes p) (tlvs_bytes ps),
  length-tlvs_bytes (p ∷ ps),
)

-- A response whose header of 41 bytes is followed by one TLV or more, none of them empty, and by the
-- two-byte trailer is parsed to exactly these entries, in their order, and the first of them is the
-- register and the value of the message.
pub parse_config_message-tlvs :
    (header : Bytes) (p : ℕ × Bytes) (ps : List (ℕ × Bytes)) (trailer : Bytes)
    → length header ≡ 41
    → All (IsTlv 65535) (p ∷ ps)
    → length trailer ≡ 2
    → (m : ConfigMessage) × (parse_config_message (header ++ (tlvs_bytes (p ∷ ps) ++ trailer))
        ≡ ok m)
      × (m.entries ≡ map entry_of (p ∷ ps))
      × (m.register_no ≡ p.0)
      × (m.value ≡ entry_value p.1)
unfolding parse_config_message
parse_config_message-tlvs header (k, v) ps trailer size h two =
    let bytes = header ++ (tlvs_bytes ((k, v) ∷ ps) ++ trailer) in
    let there : drop 41 bytes ≡ tlvs_bytes ((k, v) ∷ ps) ++ trailer =
      drop-append 41 header (tlvs_bytes ((k, v) ∷ ps) ++ trailer) size in
    let (enough, size', fuel) = response_size header (k, v) ps trailer size two in
    (
      config_message bytes (entry_of (k, v)) (map entry_of ps),
      rw (
        le→ltb_false (length bytes) 47 enough,
        entry_loop-tlvs ((k, v) ∷ ps) (suc (length bytes)) bytes (length bytes - 2) 41 trailer h
            there size' fuel,
      ),
      refl,
      refl,
      refl,
    )
