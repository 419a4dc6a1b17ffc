-- ===== src/Tests/Publications.antt =====
-- Two register maps at one address, and a state that is refused, taken and found unchanged.
use gro_bro.Prelude.{ℕ, zero, suc, ◌≤◌, ◌≡◌, true, false, none, some, List, [], ◌∷◌, ◌==◌, length}
use gro_bro.Publish.UpToDate.{Stands, publish_state-Stands}
use gro_bro.Bytes.{Text}
use gro_bro.Publish.Rules.{register_rules, KnownRegister}
use gro_bro.Dicts.{codes, TextDict, get_item}
use gro_bro.Publish.Cached.{fresh_rules, register_calls, register_rules-fresh_rules}
use gro_bro.Client.Topic.{decimal}
use gro_bro.Publish.States.{publish_state, no_states, steps, StateEvent, state, reconnect}

abbrev one_address : ℕ → ℕ
one_address object = 7

abbrev registers : ℕ → TextDict KnownRegister
registers zero = []
registers (suc n) =
    (
      codes "bat1_temp",
      record {
        data_type = none;
        enum_options = none;
        device_class = none;
        unit_of_measurement = none;
      },
    )
    ∷ []

register_rules-fresh_rules_example :
    let result =
      register_rules one_address registers
        (some 1)
        (register_calls one_address registers (some 1 ∷ some 0 ∷ []) []) in
    (result.0 ≡ fresh_rules one_address registers (some 1)) × (length result.1 ≤ 32)
register_rules-fresh_rules_example =
    register_rules-fresh_rules one_address registers (some 1 ∷ some 0 ∷ []) (some 1)

abbrev device : Text
device = codes "0PVP0001"

abbrev events : List (StateEvent ℕ ◌==◌ decimal)
events = state device 41 false ∷ state device 41 true ∷ reconnect ∷ state device 41 true ∷ []

publish_state-Stands_example : Stands ℕ ◌==◌ decimal 41 (
    get_item device
      (publish_state ℕ ◌==◌ decimal device 41 true
        (steps ℕ ◌==◌ decimal events (no_states ℕ ◌==◌ decimal))).shown)
publish_state-Stands_example = publish_state-Stands ℕ ◌==◌ decimal events device 41
