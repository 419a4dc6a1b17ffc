-- ===== src/Tests/Stored.antt =====
-- Automatic assignments: a file with a slot that stands twice, and packets at which it cannot be read or
-- written.
use gro_bro.Prelude.{
  ℕ, ◌≡◌, refl, inl, inr, Bool, true, false, none, some, List, [], ◌∷◌, Bool-cases, All,
}
use gro_bro.Bytes.{Text}
use gro_bro.Dicts.{codes, is_text_iff, TextDict, get_item}
use gro_bro.Battery.Files.{Positions, load_all_positions, Reading, loaded, returned}
use gro_bro.Battery.Serials.{is_plausible_serial}
use gro_bro.Battery.Persist.{mapping_at, packet, packets, Packet}
use gro_bro.Battery.Assigned.{ArePlausible}
use gro_bro.Battery.InStep.{AreSame, unread, packets-lookup}
use gro_bro.Battery.Written.{packet-written}
use gro_bro.Tests.Json.{
  as_dict, of_dict, to_int, to_str, read_dict, dump_dict, Json, number, object, end, field,
}
use gro_bro.Family.{is_text}

abbrev device : Text
device = codes "0PVP0001"

abbrev first_pack : Text
first_pack = codes "AAAA000001"

abbrev second_pack : Text
second_pack = codes "BBBB000002"

abbrev file : Reading Json
file = loaded (
    object
      (field device (object (field first_pack (number 3) (field second_pack (number 3) end))) end))

-- The second pack is dropped.
abbrev before : TextDict Positions
before = (device, (first_pack, 3) ∷ []) ∷ []

file_loaded : load_all_positions Json as_dict to_int to_str true file ≡ returned before
unfolding load_all_positions
file_loaded = refl

first_plausible : is_plausible_serial first_pack ≡ true
unfolding is_plausible_serial
first_plausible = refl

second_plausible : is_plausible_serial second_pack ≡ true
unfolding is_plausible_serial
second_plausible = refl

before_plausible :
    (i k : Text) (s : ℕ) → get_item k (mapping_at i before) ≡ some s → is_plausible_serial k ≡ true
before_plausible i k s e = elim (Bool-cases (is_text i device)) [
  | inl same ↦ elim (Bool-cases (is_text k first_pack)) [
    | inl pack ↦ rw ((is_text_iff k first_pack).0 pack) first_plausible
    | inr other ↦ let wrong : none ≡ some s = rw (same, other) at e in cc
  ]
  | inr other ↦ let wrong : none ≡ some s = rw other at e in cc
]

abbrev packet_with : Bool → Bool → Packet
packet_with can_read can_write = record {
  device_id = device;
  current = (2, second_pack) ∷ [];
  has_manual = false;
  use_stable_auto = true;
  can_read = can_read;
  can_write = can_write;
}

-- One packet whose file cannot be read, and one whose file cannot be written.
abbrev failures : List Packet
failures = packet_with false true ∷ packet_with true false ∷ []

packs-ArePlausible : ArePlausible ((2, second_pack) ∷ [])
packs-ArePlausible = (second_plausible, tt)

failures-ArePlausible : All (λ p. ArePlausible p.current) failures
failures-ArePlausible = (packs-ArePlausible, (packs-ArePlausible, tt))

packets-lookup_example :
    (after : TextDict Positions) × (load_all_positions Json as_dict to_int to_str true
        (packets Json as_dict to_int to_str of_dict number failures (
          unread Json as_dict to_int to_str read_dict of_dict number dump_dict
            (λ n. refl)
            file)).file
      ≡ returned after)
    × (get_item first_pack (mapping_at device after) ≡ some 3)
packets-lookup_example =
    packets-lookup Json as_dict to_int to_str read_dict of_dict number dump_dict (λ n. refl)
      failures file before device first_pack 3 file_loaded before_plausible failures-ArePlausible
      refl

packet-written_example :
    let s = packet Json as_dict to_int to_str of_dict number (packet_with true true) (
      packets Json as_dict to_int to_str of_dict number failures
        (unread Json as_dict to_int to_str read_dict of_dict number dump_dict (λ n. refl) file)) in
    (maps : TextDict Positions) × (after : TextDict Positions) × (s.maps ≡ some maps)
    × (load_all_positions Json as_dict to_int to_str true s.file ≡ returned after)
    × AreSame maps after
packet-written_example =
    packet-written Json as_dict to_int to_str read_dict of_dict number dump_dict (λ n. refl)
      failures (packet_with true true) file before file_loaded before_plausible
      failures-ArePlausible packs-ArePlausible refl refl refl refl
