-- ===== src/Config/RoundTrip.antt =====
-- What an encoded list of TLVs parses to, and configuration packets read back.
use gro_bro.Prelude.{
  ℕ, zero, suc, ◌+◌, ◌/◌, ◌%◌, ◌≤◌, ◌<◌, ◌≡◌, refl, sym, ap, ◌∙◌, inl, inr, List, [], ◌∷◌, ◌++◌,
  append_assoc, arith, ◌==◌, Bool-cases, length, drop, All, slice, length-append, length-drop,
  take-append, drop-append, drop-drop, slice-drop, subst, map,
}
use gro_bro.Config.Latest.{put, put_all, IsLatest, put_all-IsLatest}
use gro_bro.Config.Tlv.{
  config_value, Config, set_param, config_loop, or_raw, parse_config_type, done, params,
}
use gro_bro.Bytes.{Bytes, Text, be}
use gro_bro.Bytes.Words.{be-word}

-- A parameter as it stands on the wire: number, length, value.
abbrev pub tlv_bytes : ℕ × Bytes → Bytes
tlv_bytes (k, v) = (k / 256) ∷ (k % 256) ∷ (length v / 256) ∷ (length v % 256) ∷ v

abbrev pub tlvs_bytes : List (ℕ × Bytes) → Bytes
tlvs_bytes [] = []
tlvs_bytes (p ∷ ps) = tlv_bytes p ++ tlvs_bytes ps

abbrev pub IsTlv : ℕ → ℕ × Bytes → Type 0
IsTlv limit (k, v) = (k < 65536) × (0 < length v) × (length v ≤ limit)

-- The parameters put into the dict one after the other.
abbrev set_params : List (ℕ × Bytes) → Config → Config
set_params [] config = config
set_params ((k, v) ∷ ps) config = set_params ps (set_param k (config_value v) config)

-- A parameter with its value as text.
abbrev pub parsed : ℕ × Bytes → ℕ × Text
parsed (k, v) = (k, config_value v)

set_param-put : (k : ℕ) (v : Text) (config : Config) → set_param k v config ≡ put k v config
set_param-put k v [] = refl
set_param-put k v ((j, w) ∷ config) = rw (set_param-put k v config) refl

set_params-put_all :
    (ps : List (ℕ × Bytes)) (config : Config)
    → set_params ps config ≡ put_all (map parsed ps) config
set_params-put_all [] config = refl
set_params-put_all ((k, v) ∷ ps) config =
    set_params-put_all ps (set_param k (config_value v) config)
    ∙ ap (put_all (map parsed ps)) (set_param-put k (config_value v) config)

-- The fields of a parameter that stands at `offset`, and where the next one starts.
pub read_tlv :
    (bytes : Bytes) (offset k : ℕ) (v more : Bytes)
    → drop offset bytes ≡ tlv_bytes (k, v) ++ more
    → (be (slice offset (offset + 2) bytes) ≡ k)
      × (be (slice (offset + 2) (offset + 4) bytes) ≡ length v)
      × (slice (offset + 4) (offset + 4 + length v) bytes ≡ v)
      × (drop (offset + 4 + length v) bytes ≡ more)
      × (length bytes ≡ offset + 4 + length v + length more)
read_tlv bytes offset k v more e =
    let two : drop (offset + 2) bytes ≡ (length v / 256) ∷ (length v % 256) ∷ (v ++ more) =
      sym (drop-drop offset 2 bytes) ∙ rw e in
    let four : drop (offset + 4) bytes ≡ v ++ more = sym (drop-drop offset 4 bytes) ∙ rw e in
    (
      rw (slice-drop offset (offset + 2) 2 bytes refl, e) (be-word k),
      rw (slice-drop (offset + 2) (offset + 4) 2 bytes (omega arith), two) (be-word (length v)),
      rw (slice-drop (offset + 4) (offset + 4 + length v) (length v) bytes refl, four)
          (take-append (length v) v more refl),
      sym (drop-drop (offset + 4) (length v) bytes) ∙ rw four (drop-append (length v) v more refl),
      omega (arith, ap length e, length-drop offset bytes, length-append v more),
    )

config_loop-tlvs :
    (ps : List (ℕ × Bytes)) (fuel : ℕ) (bytes : Bytes) (offset : ℕ) (config : Config) (rest : Bytes)
    → All (IsTlv 512) ps
    → length rest < 4
    → drop offset bytes ≡ tlvs_bytes ps ++ rest
    → length ps < fuel
    → config_loop fuel bytes offset config ≡ done (set_params ps config)
unfolding config_loop
config_loop-tlvs ps zero bytes offset config rest h short e f = absurd (omega arith)
config_loop-tlvs [] (suc fuel) bytes offset config rest h short e f =
    ground (arith, length-drop offset bytes, ap length e)
config_loop-tlvs ((k, v) ∷ ps) (suc fuel) bytes offset config rest h short e f =
    let (key, len, val, next, long) =
      read_tlv bytes offset k v (tlvs_bytes ps ++ rest)
        (e ∙ append_assoc (tlv_bytes (k, v)) (tlvs_bytes ps) rest) in
    let loop =
      config_loop-tlvs ps fuel bytes (offset + 4 + length v) (set_param k (config_value v) config)
        rest h.1 short next (omega arith) in
    rw (key, len, val, loop) (ground arith)

pub length-tlvs_bytes : (ps : List (ℕ × Bytes)) → length ps ≤ length (tlvs_bytes ps)
length-tlvs_bytes [] = omega arith
length-tlvs_bytes ((k, v) ∷ ps) =
    omega (arith, length-tlvs_bytes ps, length-append (tlv_bytes (k, v)) (tlvs_bytes ps))

set_param-cons :
    (k : ℕ) (v : Text) (q : ℕ × Text) (c : Config)
    → (r : (ℕ × Text) × Config) × (set_param k v (q ∷ c) ≡ r.0 ∷ r.1)
set_param-cons k v (j, w) c = elim (Bool-cases (j == k)) [
  | inl same ↦ (((k, v), c), rw same)
  | inr other ↦ (((j, w), set_param k v c), rw other)
]

-- A dict that is not empty is never replaced by the raw text.
or_raw-set_params :
    (rest : Bytes) (ps : List (ℕ × Bytes)) (q : ℕ × Text) (c : Config)
    → or_raw rest (set_params ps (q ∷ c)) ≡ params (set_params ps (q ∷ c))
or_raw-set_params rest [] q c = refl
or_raw-set_params rest ((k, v) ∷ ps) q c =
    let ((q', c'), e) = set_param-cons k (config_value v) q c in
    rw e (or_raw-set_params rest ps q' c')

-- A configuration block of at least one parameter, each of 1 to 512 bytes, that stands at the offset
-- and is followed by fewer than four bytes is parsed to a dict of its parameters: its numbers are those
-- of the parameters, in the order in which each first stands there, and each has the text of the value
-- that stands last for it.
pub parse_config_type-tlvs :
    (front : Bytes) (p : ℕ × Bytes) (ps : List (ℕ × Bytes)) (rest : Bytes)
    → All (IsTlv 512) (p ∷ ps)
    → length rest < 4
    → (config : Config) × (parse_config_type (front ++ (tlvs_bytes (p ∷ ps) ++ rest)) (length front)
        ≡ done (params config))
      × IsLatest config (map parsed (p ∷ ps))
unfolding parse_config_type
parse_config_type-tlvs front (k, v) ps rest h short =
    let bytes = front ++ (tlvs_bytes ((k, v) ∷ ps) ++ rest) in
    let there = drop-append (length front) front (tlvs_bytes ((k, v) ∷ ps) ++ rest) refl in
    let fuel : length ((k, v) ∷ ps) < suc (length bytes) = omega (
      arith,
      length-tlvs_bytes ((k, v) ∷ ps),
      length-append front (tlvs_bytes ((k, v) ∷ ps) ++ rest),
      length-append (tlvs_bytes ((k, v) ∷ ps)) rest,
    ) in
    (
      set_params ((k, v) ∷ ps) [],
      rw
          (
            config_loop-tlvs ((k, v) ∷ ps) (suc (length bytes)) bytes (length front) [] rest h short
                there fuel,
            parse_config_type,
          )
          (ap done (or_raw-set_params (drop (length front) bytes) ps (k, config_value v) [])),
      subst (λ (d : Config). IsLatest d (map parsed ((k, v) ∷ ps)))
          (sym (set_params-put_all ((k, v) ∷ ps) [])) (put_all-IsLatest (map parsed ((k, v) ∷ ps))),
    )
