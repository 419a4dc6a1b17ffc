-- ===== src/Tests/Homes.antt =====
-- Commands of Home Assistant, for a gateway "RAQ1" with an inverter "PTQ2" behind it.
use gro_bro.Prelude.{ℕ, ◌%◌, ◌<◌, ◌≡◌, refl, none, some, [], ◌∷◌, arith, length}
use gro_bro.Home.Commands.{parsed_value, command_topic, handle_set, switch, time, value, sends}
use gro_bro.Register.{hhmm, parse_value, time_hhmm, ℤ, pos, DataOptions, text}
use gro_bro.Bytes.{Bytes, Text, be}
use gro_bro.Family.{get_device_family, is_gateway_device}
use gro_bro.Modbus.Device.{preset_single_register, read_single_register}
use gro_bro.Home.Wire.{endpoint_of, handle_set-endpoint_of}
use gro_bro.Modbus.Command.{parse_single}
use gro_bro.Builder.{scramble}
use gro_bro.Home.Times.{parsed_value-parse_value}

abbrev kept : ℤ → ℤ
kept x = x

abbrev first : ℤ → ℤ → ℤ
first x y = x

abbrev time_options : DataOptions ℤ kept first (λ x y z. x)
time_options = record {
  data_type = time_hhmm;
  float_options = none;
  enum_options = none;
  mult = none;
}

-- Half past eleven at night.
parsed_value-parse_value_example :
    (parsed_value time [] (hhmm 23 30) ≡ value (pos (be (23 ∷ 30 ∷ []))))
    × (parse_value ℤ kept first (λ x y z. x) time_options (some (23 ∷ 30 ∷ []))
        ≡ some (text (hhmm 23 30)))
parsed_value-parse_value_example =
    parsed_value-parse_value ℤ kept first (λ x y z. x) time_options [] 23 30 refl (omega arith)
      (omega arith)

abbrev gateway : Text
gateway = 82 ∷ 65 ∷ 81 ∷ 49 ∷ []

abbrev inverter : Text
inverter = 80 ∷ 84 ∷ 81 ∷ 50 ∷ []

abbrev last_sum : Bytes → ℕ
last_sum bytes = length bytes % 65536

last_sum_word : (p : Bytes) → last_sum p < 65536
last_sum_word p = omega arith

-- The payload "on".
switched_on : parsed_value switch [] (111 ∷ 110 ∷ []) ≡ value (pos 1)
unfolding parsed_value
switched_on = refl

inverter_behind : endpoint_of ((gateway, inverter) ∷ []) gateway ≡ some inverter
unfolding is_gateway_device get_device_family
inverter_behind = refl

handle_set-endpoint_of_example :
    (write read : Bytes) × (handle_set last_sum
        ((gateway, inverter) ∷ [])
        switch
        gateway
        0
        []
        (111 ∷ 110 ∷ [])
      ≡ sends (command_topic inverter) write ∷ sends (command_topic inverter) read ∷ [])
    × (parse_single (scramble write)
        ≡ some (record {
          device_id = inverter;
          function = preset_single_register;
          register_no = 0;
          value = 1;
        }))
    × (parse_single (scramble read)
        ≡ some (record {
          device_id = inverter;
          function = read_single_register;
          register_no = 0;
          value = 0;
        }))
handle_set-endpoint_of_example =
    handle_set-endpoint_of last_sum last_sum_word ((gateway, inverter) ∷ []) switch gateway 0 1 80
      (84 ∷ 81 ∷ 50 ∷ []) [] (111 ∷ 110 ∷ []) switched_on inverter_behind
      (ground arith, omega arith) (omega arith) (omega arith)
