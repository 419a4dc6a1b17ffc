-- ===== src/Client/Policy.antt =====
-- grobro/grobro/cloud_policy.py, for ASCII settings, and `__on_message_forward_client` of
-- grobro/grobro/client.py: which packets of the cloud reach a device.
use gro_bro.Prelude.{
  ◌>>◌, guard, ℕ, ◌+◌, Bool, true, false, not, ◌&&◌, ◌||◌, Option, none, some, List, [], ◌∷◌, ◌++◌,
  ltb, leb, ◌==◌, if◌then◌else◌, length, slice,
}
use gro_bro.Bytes.{Bytes, Text, be}
use gro_bro.Client.Topic.{strip_space, extract_device_id, first_segment}
use gro_bro.Family.{is_text, has_text}
use gro_bro.Builder.{scramble}

abbrev pub lower : Text → Text
lower [] = []
lower (c ∷ s) = (if leb b'A' c && leb c b'Z' then c + 32 else c) ∷ lower s

abbrev pub true_text : Text
true_text = b't' ∷ b'r' ∷ b'u' ∷ b'e' ∷ []

abbrev pub false_text : Text
false_text = b'f' ∷ b'a' ∷ b'l' ∷ b's' ∷ b'e' ∷ []

abbrev pub false_values : List Text
false_values = [] ∷ false_text ∷ (b'0' ∷ []) ∷ (b'n' ∷ b'o' ∷ []) ∷ (b'o' ∷ b'f' ∷ b'f' ∷ []) ∷ []

pub record CloudForwardingPolicy : Type 0 where
  pub enabled : Bool
  pub allowlist : List Text
  pub block_config_commands : Bool

-- `value or "false"`
abbrev pub or_false : Option Text → Text
or_false none = false_text
or_false (some []) = false_text
or_false (some (c ∷ s)) = c ∷ s

-- The items of `raw.split(",")`, stripped, without the empty ones.
abbrev pub add_item : Text → List Text → List Text
add_item [] items = items
add_item (c ∷ s) items = (c ∷ s) ∷ items

abbrev pub split_items : Text → Text → List Text
split_items item [] = add_item (strip_space item) []
split_items item (c ∷ s) =
    if c == b','
    then add_item (strip_space item) (split_items [] s)
    else split_items (item ++ c ∷ []) s

abbrev pub is_empty : List Text → Bool
is_empty [] = true
is_empty (t ∷ ts) = false

unfoldable pub parse_policy : Option Text → Option Text → CloudForwardingPolicy
parse_policy cloud_value config_filter_value =
    let raw = strip_space (or_false cloud_value) in
    let lowered = lower raw in
    let items = split_items [] raw in
    let block = is_text (lower (strip_space (or_false config_filter_value))) true_text in
    if has_text lowered false_values
    then record { enabled = false; allowlist = []; block_config_commands = block }
    else if is_text lowered true_text
    then record { enabled = true; allowlist = []; block_config_commands = block }
    else record { enabled = not (is_empty items); allowlist = items; block_config_commands = block }

abbrev pub forwards_all_devices : CloudForwardingPolicy → Bool
forwards_all_devices p = p.enabled && is_empty p.allowlist

abbrev pub allows_device : CloudForwardingPolicy → Text → Bool
allows_device p device_id = p.enabled && (is_empty p.allowlist || has_text device_id p.allowlist)

abbrev pub should_block_cloud_message : CloudForwardingPolicy → ℕ → Bool
should_block_cloud_message p message_type =
    p.block_config_commands && (message_type == 0x0118 || message_type == 0x0110)

-- `",".join`
abbrev pub join_items : List Text → Text
join_items [] = []
join_items (t ∷ []) = t
join_items (t ∷ u ∷ ts) = t ++ b',' ∷ join_items (u ∷ ts)

-- The order of Python's texts.
abbrev pub is_before : Text → Text → Bool
is_before t [] = false
is_before [] (d ∷ u) = true
is_before (c ∷ t) (d ∷ u) = ltb c d || (c == d && is_before t u)

abbrev pub insert_sorted : Text → List Text → List Text
insert_sorted t [] = t ∷ []
insert_sorted t (u ∷ ts) =
    if is_text t u then u ∷ ts else if is_before t u then t ∷ u ∷ ts else u ∷ insert_sorted t ts

-- `sorted(set(...))`
abbrev pub sorted_set : List Text → List Text
sorted_set [] = []
sorted_set (t ∷ ts) = insert_sorted t (sorted_set ts)

-- The setting that `_current_cloud_policy` hands to the parser again.
abbrev pub current_value : CloudForwardingPolicy → Text → Text
current_value p cloud =
    let by_list =
      if is_empty p.allowlist
      then (if is_text cloud [] then true_text else cloud)
      else join_items (sorted_set p.allowlist) in
    if not p.enabled
    then false_text
    else if is_text (lower cloud) true_text
    then true_text
    else by_list

abbrev pub env_value : Option Text → Text
env_value none = false_text
env_value (some value) = value

-- `_current_cloud_policy`, from the environment variables of the cloud and of the config filter.
unfoldable pub current_cloud_policy : Option Text → Option Text → CloudForwardingPolicy
current_cloud_policy cloud_value config_filter_value =
    let cloud = strip_space (env_value cloud_value) in
    let filter = lower (env_value config_filter_value) in
    parse_policy (some (current_value (parse_policy (some cloud) (some filter)) cloud))
      (some filter)

-- The topic on which a packet of the cloud goes on to a device, with the payload, or none.
unfoldable pub on_message_forward_client :
    Bool → CloudForwardingPolicy → Text → Bytes → Option (Text × Bytes)
on_message_forward_client stopped p topic payload = do
  guard (not stopped)
  let device_id = extract_device_id topic
  guard (not (is_text device_id []))
  let unscrambled = scramble payload
  guard (leb 8 (length unscrambled))
  guard (allows_device p device_id)
  guard (not (should_block_cloud_message p (be (slice 6 8 unscrambled))))
  some (first_segment topic ++ b'/' ∷ b'3' ∷ b'3' ∷ b'/' ∷ device_id, payload)
