-- ===== src/Tests/Registers.antt =====
-- Values of registers, with whole numbers in place of floats.
use gro_bro.Prelude.{none}
use gro_bro.Register.{DataType, ℤ, DataOptions}

abbrev kept : ℤ → ℤ
kept x = x

abbrev first : ℤ → ℤ → ℤ
first x y = x

abbrev options : DataType → DataOptions ℤ kept first (λ x y z. x)
options type = record { data_type = type; float_options = none; enum_options = none; mult = none }
