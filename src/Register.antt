-- ===== src/Register.antt =====
-- `GrowattRegisterDataType.parse` of grobro/model/growatt_registers.py: the value of a register from
-- its bytes. Python's floats, and what is computed with them, are parameters.
pub mod Values
use gro_bro.Prelude.{
  ◌>>=◌, ℕ, ◌+◌, ◌-◌, ◌/◌, ◌%◌, ◌^◌, ◌||◌, Option, none, some, List, [], ◌∷◌, ◌++◌, ltb, ◌==◌,
  if◌then◌else◌, length,
}
use gro_bro.Bytes.{Bytes, Text, be, decode_ignore, strip}

pub data DataType : Type 0 where
  enum_value : DataType
  string : DataType
  float : DataType
  int : DataType
  signed_float : DataType
  signed_int : DataType
  time_hhmm : DataType

pub data EnumType : Type 0 where
  int_map : EnumType
  bitfield : EnumType

pub record EnumOptions : Type 0 where
  pub enum_type : EnumType
  pub values : List (ℕ × Text)

-- An integer: `pos n` is n, `negsuc n` is -(n + 1).
pub data ℤ : Type 0 where
  pos : ℕ → ℤ
  negsuc : ℕ → ℤ

-- The struct formats B, H and I.
unfoldable pub unpack_unsigned : Bytes → Option ℕ
unpack_unsigned raw =
    if length raw == 1 || length raw == 2 || length raw == 4 then some (be raw) else none

abbrev pub two_complement : ℕ → ℕ → ℤ
two_complement w n = if ltb n (2 ^ (w - 1)) then pos n else negsuc (2 ^ w - 1 - n)

-- The struct formats b, h and i.
unfoldable pub unpack_signed : Bytes → Option ℤ
unpack_signed raw =
    if length raw == 1
    then some (two_complement 8 (be raw))
    else if length raw == 2
    then some (two_complement 16 (be raw))
    else if length raw == 4
    then some (two_complement 32 (be raw))
    else none

-- `{n:02d}` for a number below 100.
abbrev pub two_digits : ℕ → Text
two_digits n = (b'0' + n / 10) ∷ (b'0' + n % 10) ∷ []

abbrev pub hhmm : ℕ → ℕ → Text
hhmm hour minute = two_digits hour ++ b':' ∷ two_digits minute

abbrev pub unknown : Text
unknown = b'u' ∷ b'n' ∷ b'k' ∷ b'n' ∷ b'o' ∷ b'w' ∷ b'n' ∷ []

abbrev pub enum_text : List (ℕ × Text) → ℕ → Text
enum_text [] value = unknown
enum_text ((k, t) ∷ values) value = if k == value then t else enum_text values value

module _ (Float : Type 0) (rounded : ℤ → Float) (scaled : ℤ → Float → Float)
    (shifted : ℤ → Float → Float → Float) where
  -- `mult`, and the multiplier and delta of `float_options`.
  pub record DataOptions : Type 0 where
    pub data_type : DataType
    pub float_options : Option (Float × Float)
    pub enum_options : Option EnumOptions
    pub mult : Option Float

  pub data Value : Type 0 where
    text : Text → Value
    integer : ℤ → Value
    number : Float → Value

  -- The value rounded to three digits: as it is, times `mult`, or times the multiplier plus delta.
  abbrev pub float_value : Option Float → Option (Float × Float) → ℤ → Float
  float_value (some mult) options value = scaled value mult
  float_value none (some (multiplier, delta)) value = shifted value multiplier delta
  float_value none none value = rounded value

  abbrev pub time_value : ℕ → Option Value
  time_value value =
      let hour = value / 256 % 256 in
      let minute = value % 256 in
      if ltb 23 hour || ltb 59 minute then none else some (text (hhmm hour minute))

  abbrev pub enum_result : Option EnumOptions → ℕ → Option Value
  enum_result none value = none
  enum_result (some options) value = elim options.enum_type [
    | bitfield ↦ none
    | int_map ↦ some (text (enum_text options.values value))
  ]

  unfoldable pub parse_typed : DataType → DataOptions → Bytes → Option Value
  parse_typed string self raw = some (text (strip (decode_ignore raw)))
  parse_typed signed_float self raw = do
    value ← unpack_signed raw
    some (number (float_value self.mult self.float_options value))
  parse_typed float self raw = do
    value ← unpack_unsigned raw
    some (number (float_value self.mult self.float_options (pos value)))
  parse_typed time_hhmm self raw = do value ← unpack_unsigned raw; time_value value
  parse_typed signed_int self raw = do value ← unpack_signed raw; some (integer value)
  parse_typed int self raw = do value ← unpack_unsigned raw; some (integer (pos value))
  parse_typed enum_value self raw = do
    value ← unpack_unsigned raw
    enum_result self.enum_options value

  -- No data and empty data have no value.
  unfoldable pub parse_value : DataOptions → Option Bytes → Option Value
  parse_value self none = none
  parse_value self (some []) = none
  parse_value self (some (b ∷ raw)) = parse_typed self.data_type self (b ∷ raw)
