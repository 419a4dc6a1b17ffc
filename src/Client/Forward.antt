-- ===== src/Client/Forward.antt =====
-- The cloud's packets that set a device up are held back under the config filter.
use gro_bro.Prelude.{
  ◌>>◌, guard, ℕ, ◌<◌, ◌≡◌, refl, ap, Bool, true, false, not, ◌&&◌, Option, none, some, [], ◌∷◌,
  ◌++◌, ltb, leb, if◌then◌else◌, if_keeps, length, slice,
}
use gro_bro.Config.Response.{parse_config_ack, Result, ok, ConfigAck}
use gro_bro.Client.Policy.{
  lower, true_text, false_values, or_false, parse_policy, allows_device, should_block_cloud_message,
  on_message_forward_client, CloudForwardingPolicy,
}
use gro_bro.Bytes.{Bytes, Text, be, IsSerial}
use gro_bro.Family.{is_text, has_text}
use gro_bro.Builder.{scramble, build_config_read_packet, build_config_write_packet}
use gro_bro.Client.Topic.{strip_space, extract_device_id, first_segment}
use gro_bro.Config.Packets.{build_config_read_packet-ack, build_config_write_packet-ack}
use gro_bro.Builder.Scramble.{scramble_lem}

abbrev message_type_of : Result ConfigAck → ℕ
message_type_of (ok a) = a.message_type
message_type_of _ = 0

ack_type :
    (bytes : Bytes) {a : ConfigAck}
    → parse_config_ack bytes ≡ ok a
    → be (slice 6 8 bytes) ≡ a.message_type
unfolding parse_config_ack
ack_type bytes {a} =
    if_keeps (λ (r : Result ConfigAck). r ≡ ok a → be (slice 6 8 bytes) ≡ a.message_type)
      (ltb (length bytes) 40) (λ e. absurd cc) (λ e. ap message_type_of e)

filter_blocks :
    (cloud_value : Option Text)
    → (parse_policy cloud_value (some true_text)).block_config_commands ≡ true
unfolding parse_policy
filter_blocks cloud_value =
    let raw = strip_space (or_false cloud_value) in
    if_keeps (λ (p : CloudForwardingPolicy). p.block_config_commands ≡ true)
      (has_text (lower raw) false_values) refl
      (if_keeps (λ (p : CloudForwardingPolicy). p.block_config_commands ≡ true)
        (is_text (lower raw) true_text) refl refl)

guard-none : {A : Type 0} (b : Bool) {m : Option A} → m ≡ none → (guard b >> m) ≡ none
guard-none true h = h
guard-none false h = refl

-- The last two guards, for a type that no filter blocks.
guards_if :
    {A : Type 0} (a b : Bool) (x : A)
    → (guard a >> (guard (not (b && false)) >> some x)) ≡ (if a then some x else none)
guards_if true true x = refl
guards_if true false x = refl
guards_if false b x = refl

-- A packet of a blocked type goes nowhere.
blocked :
    (stopped : Bool) (p : CloudForwardingPolicy) (topic : Text) (payload : Bytes)
    → should_block_cloud_message p (be (slice 6 8 (scramble payload))) ≡ true
    → on_message_forward_client stopped p topic payload ≡ none
unfolding on_message_forward_client
blocked stopped p topic payload h =
    let device_id = extract_device_id topic in
    guard-none (not stopped) (
      guard-none (not (is_text device_id [])) (
        guard-none (leb 8 (length (scramble payload)))
          (guard-none (allows_device p device_id) (rw h refl))))

module _ (checksum : Bytes → ℕ) (checksum_word : (p : Bytes) → checksum p < 65536) where
  -- With a checksum of two bytes and the config filter set to "true", whatever the cloud setting and
  -- the topic, a config write packet for a serial number of at most 16 ASCII characters, a register
  -- number of two bytes and an ASCII value of at most 65495 characters without NUL is built, and it is
  -- not passed on to a device.
  pub on_message_forward_client-build_config_write_packet :
      (stopped : Bool) (cloud_value : Option Text) (topic id : Text) (register_no : ℕ)
      (value : Text)
      → IsSerial 16 id
      → register_no < 65536
      → IsSerial 65495 value
      → (pkt : Bytes) × (build_config_write_packet checksum id register_no value ≡ some pkt)
        × (on_message_forward_client stopped (parse_policy cloud_value (some true_text)) topic pkt
            ≡ none)
  on_message_forward_client-build_config_write_packet stopped cloud_value topic id register_no value
        hi hr hv =
      let p = parse_policy cloud_value (some true_text) in
      let (pkt, built, size, read) =
        build_config_write_packet-ack checksum checksum_word id register_no value hi hr hv in
      (
        pkt,
        built,
        blocked stopped p topic pkt
            (rw (filter_blocks cloud_value, ack_type (scramble pkt) read) refl),
      )

  -- With a checksum of two bytes, a config read packet for a serial number of at most 16 ASCII
  -- characters and a register number of two bytes is built, and a client that is not stopped passes it
  -- on, unchanged, to the device of a topic that has a serial number if the policy allows this device,
  -- whether the config filter is set or not, and to none otherwise.
  pub on_message_forward_client-build_config_read_packet :
      (p : CloudForwardingPolicy) (topic id : Text) (register_no : ℕ)
      → is_text (extract_device_id topic) [] ≡ false
      → IsSerial 16 id
      → register_no < 65536
      → (pkt : Bytes) × (build_config_read_packet checksum id register_no ≡ some pkt)
        × (on_message_forward_client false p topic pkt ≡ (
            if allows_device p (extract_device_id topic)
            then some
                (first_segment topic ++ b'/' ∷ b'3' ∷ b'3' ∷ b'/' ∷ extract_device_id topic, pkt)
            else none))
  unfolding on_message_forward_client
  on_message_forward_client-build_config_read_packet p topic id register_no usable hi hr =
      let (pkt, built, size, read) =
        build_config_read_packet-ack checksum checksum_word id register_no hi hr in
      let long : leb 8 (length (scramble pkt)) ≡ true = rw ((scramble_lem pkt 0).0, size) refl in
      (
        pkt,
        built,
        rw (usable, long, ack_type (scramble pkt) read)
            (guards_if (allows_device p (extract_device_id topic)) p.block_config_commands _),
      )
