-- ===== src/Tests/Clients.antt =====
-- Packets through the clients, and the settings of the cloud.
use gro_bro.Prelude.{ℕ, ◌%◌, ◌<◌, ◌≡◌, refl, true, false, none, some, [], ◌∷◌, arith, length}
use gro_bro.Client.Topic.{extract_device_id}
use gro_bro.Bytes.{Bytes, Text}
use gro_bro.Client.Policy.{
  true_text, parse_policy, forwards_all_devices, allows_device, join_items, current_cloud_policy,
  on_message_forward_client,
}
use gro_bro.Builder.{build_config_write_packet}
use gro_bro.Family.{is_text}
use gro_bro.Client.Allowlist.{allows_device-current_cloud_policy}
use gro_bro.Client.Forward.{on_message_forward_client-build_config_write_packet}

-- Two serial numbers, the first is "AB1".
abbrev first : Text
first = 65 ∷ 66 ∷ 49 ∷ []

abbrev second : Text
second = 67 ∷ 50 ∷ []

-- "s/33/AB1"
abbrev topic : Text
topic = 115 ∷ 47 ∷ 51 ∷ 51 ∷ 47 ∷ first

allows_device-current_cloud_policy_example :
    allows_device
      (current_cloud_policy (some (join_items (second ∷ first ∷ second ∷ []))) none)
      first
    ≡ true
allows_device-current_cloud_policy_example =
    allows_device-current_cloud_policy second (first ∷ second ∷ []) none first (ground arith)

-- A list of the one item "TRUE" is a word when it is parsed again.
listed_word :
    forwards_all_devices (current_cloud_policy (some (84 ∷ 82 ∷ 85 ∷ 69 ∷ 44 ∷ [])) none) ≡ true
unfolding current_cloud_policy parse_policy
listed_word = refl

abbrev last_sum : Bytes → ℕ
last_sum bytes = length bytes % 65536

last_sum_word : (p : Bytes) → last_sum p < 65536
last_sum_word p = omega arith

on_message_forward_client-build_config_write_packet_example :
    (pkt : Bytes) × (build_config_write_packet last_sum first 31 (49 ∷ []) ≡ some pkt)
    × (on_message_forward_client false (parse_policy (some true_text) (some true_text)) topic pkt
        ≡ none)
on_message_forward_client-build_config_write_packet_example =
    on_message_forward_client-build_config_write_packet last_sum last_sum_word false
      (some true_text) topic first 31 (49 ∷ []) (ground arith, omega arith) (omega arith)
      (ground arith, omega arith)

usable : is_text (extract_device_id topic) [] ≡ false
unfolding extract_device_id
usable = refl
