-- ===== src/Config/Response.antt =====
-- `parse_config_message` and `parse_config_ack` of grobro/grobro/parser.py; `invalid` stands for
-- the ValueError that they raise.
use gro_bro.Prelude.{
  ℕ, zero, suc, ◌+◌, ◌-◌, ◌||◌, List, [], ◌∷◌, ltb, leb, ◌==◌, if◌then◌else◌, length, slice,
}
use gro_bro.Config.Tlv.{Outcome, done, stuck}
use gro_bro.Bytes.{Bytes, Text, be, decode_replace, rstrip, strip}

pub data Result (A : Type 0) : Type 0 where
  ok : A → Result A
  truncated : Result A
  no_value : Result A
  out_of_fuel : Result A

pub record Entry : Type 0 where
  pub register_no : ℕ
  pub value : Text

pub record ConfigMessage : Type 0 where
  pub header : Bytes
  pub message_length : ℕ
  pub message_type : ℕ
  pub device_id : Text
  pub config_type : ℕ
  pub register_no : ℕ
  pub value : Text
  pub entries : List Entry

abbrev pub entry_value : Bytes → Text
entry_value raw = strip (decode_replace raw)

abbrev pub cons_entry : Entry → Outcome (List Entry) → Outcome (List Entry)
cons_entry e (done es) = done (e ∷ es)
cons_entry e stuck = stuck

-- The TLVs from `pos` to `end`; the loop stops at the first that does not fit.
unfoldable pub entry_loop : ℕ → Bytes → ℕ → ℕ → Outcome (List Entry)
entry_loop zero bytes end pos = stuck
entry_loop (suc fuel) bytes end pos =
    let register_no = be (slice pos (pos + 2) bytes) in
    let value_len = be (slice (pos + 2) (pos + 4) bytes) in
    let entry : Entry = record {
      register_no = register_no;
      value = entry_value (slice (pos + 4) (pos + 4 + value_len) bytes);
    } in
    let rest = cons_entry entry (entry_loop fuel bytes end (pos + 4 + value_len)) in
    if leb (pos + 4) end
    then (if value_len == 0 || ltb end (pos + 4 + value_len) then done [] else rest)
    else done []

-- The fixed layout of older packets: register, two reserved bytes, value.
abbrev pub legacy_entry : Bytes → Entry
legacy_entry bytes = record {
  register_no = be (slice 41 43 bytes);
  value = entry_value (slice 45 (length bytes - 2) bytes);
}

abbrev pub device_text : Bytes → Text
device_text field = decode_replace (rstrip field)

abbrev pub config_message : Bytes → Entry → List Entry → ConfigMessage
config_message bytes first rest = record {
  header = slice 0 4 bytes;
  message_length = be (slice 4 6 bytes);
  message_type = be (slice 6 8 bytes);
  device_id = device_text (slice 8 24 bytes);
  config_type = be (slice 38 40 bytes);
  register_no = first.register_no;
  value = first.value;
  entries = first ∷ rest;
}

abbrev pub with_entries : Bytes → Outcome (List Entry) → Result ConfigMessage
with_entries bytes (done (e ∷ es)) = ok (config_message bytes e es)
with_entries bytes (done []) =
    if ltb (length bytes) (45 + 2)
    then no_value
    else ok (config_message bytes (legacy_entry bytes) [])
with_entries bytes stuck = out_of_fuel

-- The header takes 41 bytes, the TLVs end before a two-byte trailer.
unfoldable pub parse_config_message : Bytes → Result ConfigMessage
parse_config_message bytes =
    if ltb (length bytes) (41 + 4 + 2)
    then truncated
    else with_entries bytes (entry_loop (suc (length bytes)) bytes (length bytes - 2) 41)

pub record ConfigAck : Type 0 where
  pub header : Bytes
  pub message_length : ℕ
  pub message_type : ℕ
  pub device_id : Text
  pub register_no : ℕ

unfoldable pub parse_config_ack : Bytes → Result ConfigAck
parse_config_ack bytes =
    if ltb (length bytes) 40
    then truncated
    else ok (record {
      header = slice 0 4 bytes;
      message_length = be (slice 4 6 bytes);
      message_type = be (slice 6 8 bytes);
      device_id = device_text (slice 8 24 bytes);
      register_no = be (slice 38 40 bytes);
    })
