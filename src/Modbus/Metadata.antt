-- ===== src/Modbus/Metadata.antt =====
-- `GrowattMetadata` of grobro/model/modbus_message.py, with the part of Python's `datetime` that it
-- uses: a time exists, or its constructor raises ValueError.
use gro_bro.Prelude.{
  ◌>>=◌, ℕ, ◌+◌, ◌-◌, ◌*◌, ◌/◌, ◌%◌, ◌≤◌, ◌<◌, ◌≡◌, Bool, true, not, ◌&&◌, ◌||◌, Option, none, some,
  [], ◌∷◌, ◌++◌, append_assoc, arith, ltb, leb, ◌==◌, if◌then◌else◌, length, drop, slice,
  length-append, length-drop, take-append, drop-append, get_or,
}
use gro_bro.Bytes.{Bytes, Text, pack_byte, ljust, decode_ignore, strip, IsSerial}
use gro_bro.Bytes.Strip.{strip-decode-ljust, length-ljust}
use gro_bro.Modbus.Device.{metadata_size, encode_modbus_device_id, encode_modbus_device_id-serial}

pub record DateTime : Type 0 where
  pub year : ℕ
  pub month : ℕ
  pub day : ℕ
  pub hour : ℕ
  pub minute : ℕ
  pub second : ℕ
  pub microsecond : ℕ

abbrev is_leap_year : ℕ → Bool
is_leap_year y = y % 4 == 0 && (not (y % 100 == 0) || y % 400 == 0)

abbrev days_in_month : ℕ → ℕ → ℕ
days_in_month y m =
    if m == 2
    then (if is_leap_year y then 29 else 28)
    else if m == 4 || m == 6 || m == 9 || m == 11
    then 30
    else 31

-- What the constructor of `datetime` accepts.
unfoldable pub is_datetime : DateTime → Bool
is_datetime t =
    leb 1 t.year
    && leb t.year 9999
    && leb 1 t.month
    && leb t.month 12
    && leb 1 t.day
    && leb t.day (days_in_month t.year t.month)
    && ltb t.hour 24
    && ltb t.minute 60
    && ltb t.second 60
    && ltb t.microsecond 1000000

pub record Metadata : Type 0 where
  pub device_sn : Text
  pub timestamp : Option DateTime

-- The `datetime(...)` call inside `try`, from the seven bytes behind the serial number.
abbrev timestamp_of : Bytes → DateTime
timestamp_of bytes = record {
  year = get_or bytes 0 0 + 2000;
  month = get_or bytes 1 0;
  day = get_or bytes 2 0;
  hour = get_or bytes 3 0;
  minute = get_or bytes 4 0;
  second = get_or bytes 5 0;
  microsecond = get_or bytes 6 0 * 1000;
}

abbrev checked_timestamp : DateTime → Option DateTime
checked_timestamp t = if is_datetime t then some t else none

-- The unpacked serial number and time bytes, decoded.
abbrev metadata_fields : Bytes → Bytes → Metadata
metadata_fields serial time = record {
  device_sn = strip (decode_ignore serial);
  timestamp = checked_timestamp (timestamp_of time);
}

unfoldable pub metadata_of : Bytes → Metadata
metadata_of window = metadata_fields (slice 0 30 window) (slice 30 37 window)

unfoldable pub parse_metadata : Bytes → ℕ → Option Metadata
parse_metadata buffer offset =
    if ltb (length buffer - offset) metadata_size
    then none
    else some (metadata_of (drop offset buffer))

-- A year before 2000 is a negative byte for `struct.pack`, which raises.
pack_year : ℕ → Option Bytes
pack_year y = if ltb y 2000 then none else pack_byte (y - 2000)

pack_timestamp : DateTime → Option Bytes
unfolding pack_year
pack_timestamp t = do
  y ← pack_year t.year
  mo ← pack_byte t.month
  d ← pack_byte t.day
  h ← pack_byte t.hour
  mi ← pack_byte t.minute
  s ← pack_byte t.second
  ms ← pack_byte (t.microsecond / 1000)
  some (y ++ mo ++ d ++ h ++ mi ++ s ++ ms)

-- `none` stands for the exceptions: no timestamp, or a field that does not fit.
unfoldable pub build_metadata : Metadata → Option Bytes
unfolding pack_timestamp
build_metadata m = do
  t ← m.timestamp
  sn ← encode_modbus_device_id m.device_sn
  stamp ← pack_timestamp t
  some (sn ++ stamp)

-- A time that seven bytes can hold: a year up to 2255, in milliseconds below 256.
pub record IsStamp (t : DateTime) : Type 0 where
  pub exists : is_datetime t ≡ true
  pub from_2000 : 2000 ≤ t.year
  pub to_2255 : t.year < 2256
  pub in_bytes :
      (t.month < 256) × (t.day < 256) × (t.hour < 256) × (t.minute < 256) × (t.second < 256)
  pub millis : (t.microsecond % 1000 ≡ 0) × (t.microsecond < 256000)

abbrev stamp_bytes : DateTime → Bytes
stamp_bytes t =
    (t.year - 2000) ∷ t.month ∷ t.day ∷ t.hour ∷ t.minute ∷ t.second ∷ (t.microsecond / 1000) ∷ []

pack_timestamp-IsStamp : (t : DateTime) → IsStamp t → pack_timestamp t ≡ some (stamp_bytes t)
unfolding pack_timestamp
pack_timestamp-IsStamp t h = ground arith

timestamp_of-stamp_bytes : (t : DateTime) → IsStamp t → timestamp_of (stamp_bytes t) ≡ t
timestamp_of-stamp_bytes t h = ground arith

abbrev pub metadata_bytes : Text → DateTime → Bytes
metadata_bytes sn t = ljust 30 sn ++ stamp_bytes t

abbrev pub with_time : Text → DateTime → Metadata
with_time sn t = record { device_sn = sn; timestamp = some t }

pub build_metadata-valid :
    (sn : Text) (t : DateTime)
    → IsSerial 30 sn
    → IsStamp t
    → build_metadata (with_time sn t) ≡ some (metadata_bytes sn t)
unfolding build_metadata
build_metadata-valid sn t h k = rw (encode_modbus_device_id-serial sn h, pack_timestamp-IsStamp t k)

pub length-metadata_bytes :
    (sn : Text) (t : DateTime) → IsSerial 30 sn → length (metadata_bytes sn t) ≡ 37
length-metadata_bytes sn t h = rw length-append (omega (arith, length-ljust 30 sn h.1))

fields-bytes :
    (sn : Text) (t : DateTime)
    → IsSerial 30 sn
    → IsStamp t
    → metadata_fields (ljust 30 sn) (stamp_bytes t) ≡ with_time sn t
fields-bytes sn t h k = rw (strip-decode-ljust 30 sn h, timestamp_of-stamp_bytes t k, k.exists)

-- A serial number and a time that are packed are read back, whatever follows.
pub metadata_of-bytes :
    (sn : Text) (t : DateTime) (rest : Bytes)
    → IsSerial 30 sn
    → IsStamp t
    → metadata_of (metadata_bytes sn t ++ rest) ≡ with_time sn t
unfolding metadata_of
metadata_of-bytes sn t rest h k =
    let size = length-ljust 30 sn h.1 in
    rw append_assoc (
      rw
        (
          take-append 30 (ljust 30 sn) (stamp_bytes t ++ rest) size,
          drop-append 30 (ljust 30 sn) (stamp_bytes t ++ rest) size,
        )
        (fields-bytes sn t h k))

-- A serial number and a time that stand at `offset` are read from there, whatever follows.
pub parse_metadata-bytes :
    (sn : Text) (t : DateTime) (buffer : Bytes) (offset : ℕ) (rest : Bytes)
    → IsSerial 30 sn
    → IsStamp t
    → drop offset buffer ≡ metadata_bytes sn t ++ rest
    → parse_metadata buffer offset ≡ some (with_time sn t)
unfolding parse_metadata
parse_metadata-bytes sn t buffer offset rest h k e =
    rw
      (
        ← length-drop offset buffer,
        e,
        metadata_of-bytes sn t rest h k,
        length-append,
        length-metadata_bytes sn t h,
      )
      (ground arith)
