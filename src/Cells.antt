-- ===== src/Cells.antt =====
-- The values of a decoded payload: texts, integers, Python's floats, Booleans and None. Floats are a
-- parameter, with `str` of a float.
use gro_bro.Prelude.{Bool, true, false}
use gro_bro.Bytes.{Text}
use gro_bro.Register.{ℤ}
use gro_bro.Client.Topic.{text_of_int}
use gro_bro.Dicts.{codes}

pub data Cell (Float : Type 0) : Type 0 where
  nothing : Cell Float
  chars : Text → Cell Float
  whole : ℤ → Cell Float
  real : Float → Cell Float
  flag : Bool → Cell Float

-- `str(value)`
abbrev pub str : {Float : Type 0} → (Float → Text) → Cell Float → Text
str repr nothing = codes "None"
str repr (chars t) = t
str repr (whole n) = text_of_int n
str repr (real x) = repr x
str repr (flag true) = codes "True"
str repr (flag false) = codes "False"
