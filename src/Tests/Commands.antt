-- ===== src/Tests/Commands.antt =====
-- Register commands for a device "QMN1", and a scrambled packet.
use gro_bro.Prelude.{◌≡◌, refl, inl, some, [], ◌∷◌, ◌++◌, arith}
use gro_bro.Bytes.{Bytes, Text}
use gro_bro.Modbus.Command.{parse_multiple, build_multiple, FunctionMultiple}
use gro_bro.Modbus.CommandTrip.{parse_multiple-build, IsMultiple}
use gro_bro.Modbus.Device.{preset_multiple_register}

abbrev serial : Text
serial = 81 ∷ 77 ∷ 78 ∷ 49 ∷ []

abbrev write_registers : FunctionMultiple
write_registers = record {
  device_id = serial;
  function = preset_multiple_register;
  start = 45;
  end = 46;
  values = 0 ∷ 24 ∷ 0 ∷ 2 ∷ [];
}

write_registers-IsMultiple : IsMultiple write_registers
write_registers-IsMultiple = record {
  serial = (ground arith, omega arith);
  ordered = omega arith;
  in_range = omega arith;
  len_word = omega arith;
  filled = ground arith;
}

parse_multiple-build_example :
    (bytes : Bytes) × (build_multiple write_registers ≡ some bytes)
    × (parse_multiple (bytes ++ []) ≡ some write_registers)
parse_multiple-build_example =
    parse_multiple-build write_registers [] write_registers-IsMultiple (inl refl)

abbrev packet : Bytes
packet = 0 ∷ 1 ∷ 0 ∷ 7 ∷ 0 ∷ 37 ∷ 1 ∷ 6 ∷ 81 ∷ 77 ∷ 78 ∷ 49 ∷ 0 ∷ 0 ∷ 0 ∷ 0 ∷ 255 ∷ []
