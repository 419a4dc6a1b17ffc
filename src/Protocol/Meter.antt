-- ===== src/Protocol/Meter.antt =====
-- A smart-meter message of type 0x6f64, decoded.
use gro_bro.Prelude.{
  append-nil, zero, suc, if◌then◌else◌, leb, ℕ, ◌+◌, ◌-◌, ◌/◌, ◌%◌, ◌≤◌, ◌<◌, ◌≡◌, refl, sym, ap,
  ◌∙◌, [], ◌∷◌, ◌++◌, arith, le→ltb_false, length, drop, All, slice, length-drop, take-append,
  drop-append, drop-drop, slice-drop,
}
use gro_bro.Bytes.{Bytes, Text, be, ljust, decode_replace, IsSerial, IsByte}
use gro_bro.Protocol.Decoders.{
  three_digits, two_digits, four_digits, timestamp_text, parse_noah_6f64, noah_6f64,
}
use gro_bro.Config.Response.{device_text}
use gro_bro.Bytes.Strip.{rstrip-padded, decode_replace-serial, length-ljust}

-- A field that stands at `m` is cut out, and the rest stands behind it.
slice_at :
    (m n : ℕ) (bytes xs more : Bytes)
    → drop m bytes ≡ xs ++ more
    → length xs ≡ n
    → (slice m (m + n) bytes ≡ xs) × (drop (m + n) bytes ≡ more)
slice_at m n bytes xs more e size = (
  slice-drop m (m + n) n bytes refl ∙ rw e (take-append n xs more size),
  sym (drop-drop m n bytes) ∙ rw e (drop-append n xs more size),
)

-- `struct.pack(">I", n)`
abbrev pub four_bytes : ℕ → Bytes
four_bytes n = (n / 16777216) ∷ (n / 65536 % 256) ∷ (n / 256 % 256) ∷ (n % 256) ∷ []

be-four_bytes : (n : ℕ) → be (four_bytes n) ≡ n
be-four_bytes n = omega arith

decode_replace_ascii : (json : Text) → All (λ c. c < 128) json → decode_replace json ≡ json
decode_replace_ascii [] h = refl
decode_replace_ascii (c ∷ json) h = ground (arith, decode_replace_ascii json h.1)

device_text-field : (n : ℕ) (s : Text) → IsSerial n s → device_text (ljust n s) ≡ s
device_text-field n s h = rw (rstrip-padded s (n - length s) h.0) (decode_replace-serial s h.0)

-- A smart-meter message: the serial numbers of the device and the meter, a time, and a JSON text
-- behind its length.
abbrev pub meter_bytes : Bytes → Text → Text → Bytes → Text → Bytes → Bytes
meter_bytes head id meter time json rest =
    head
    ++ (ljust 30 id ++ (ljust 30 meter ++ (time ++ (four_bytes (length json) ++ (json ++ rest)))))

-- The last `width` decimal digits of a number, from the ones up.
abbrev pub decimal : ℕ → ℕ → Text → Text
decimal zero n after = after
decimal (suc width) n after = decimal width (n / 10) ((b'0' + n % 10) ∷ after)

abbrev pub at_least_two : ℕ → Text → Text
at_least_two n after = if leb 100 n then decimal 3 n after else decimal 2 n after

-- A date and a time of day as ISO 8601 writes them, in the year 2000 + `year`.
abbrev pub iso_time : ℕ → ℕ → ℕ → ℕ → ℕ → ℕ → ℕ → Text
iso_time year month day hour minute second millis = decimal 4 (2000 + year) (
    b'-'
    ∷ at_least_two month (
        b'-'
        ∷ at_least_two day (
            b'T'
            ∷ at_least_two hour (
                b':'
                ∷ at_least_two minute (b':' ∷ at_least_two second (b'.' ∷ decimal 3 millis []))))))

three_digits-decimal :
    (n : ℕ) (after : Text) → n < 1000 → three_digits n ++ after ≡ decimal 3 n after
three_digits-decimal n after h = ground arith

two_digits-at_least_two :
    (n : ℕ) (after : Text) → n < 256 → two_digits n ++ after ≡ at_least_two n after
two_digits-at_least_two n after h = ground arith

four_digits-decimal :
    (n : ℕ) (after : Text) → n < 10000 → four_digits n ++ after ≡ decimal 4 n after
four_digits-decimal n after h = ground arith

-- A field behind its separator.
field :
    {text spec : Text} (separator n : ℕ)
    → n < 256
    → text ≡ spec
    → separator ∷ two_digits n ++ text ≡ separator ∷ at_least_two n spec
field separator n h e = ap (◌∷◌ separator) (two_digits-at_least_two n _ h ∙ ap (at_least_two n) e)

timestamp_text-iso_time :
    (year month day hour minute second millis : ℕ)
    → All IsByte (year ∷ month ∷ day ∷ hour ∷ minute ∷ second ∷ millis ∷ [])
    → timestamp_text (year ∷ month ∷ day ∷ hour ∷ minute ∷ second ∷ millis ∷ [])
      ≡ iso_time year month day hour minute second millis
unfolding timestamp_text
timestamp_text-iso_time year month day hour minute second millis h =
    let last : three_digits millis ≡ decimal 3 millis [] =
      sym (append-nil (three_digits millis)) ∙ three_digits-decimal millis [] (omega arith) in
    four_digits-decimal (2000 + year) _ (omega arith)
    ∙ ap (decimal 4 (2000 + year)) (
        field b'-' month (omega arith) (
          field b'-' day (omega arith) (
            field b'T' hour (omega arith) (
              field b':' minute (omega arith)
                (field b':' second (omega arith) (ap (◌∷◌ b'.') last))))))

-- A smart-meter message with a JSON text in ASCII and with two bytes or more behind it is decoded to
-- the device, the meter, the text with its length, and the time: a date and a time of day, as ISO 8601
-- writes them, from the bytes for the year after 2000, the month, the day, the hour, the minute, the
-- second and the rest of the second.
pub parse_noah_6f64-meter_bytes :
    (head : Bytes) (id meter : Text) (year month day hour minute second millis : ℕ) (json : Text)
    (rest : Bytes)
    → length head ≡ 8
    → IsSerial 30 id
    → IsSerial 30 meter
    → All IsByte (year ∷ month ∷ day ∷ hour ∷ minute ∷ second ∷ millis ∷ [])
    → All (λ c. c < 128) json
    → 2 ≤ length rest
    → parse_noah_6f64 (
        meter_bytes head id meter
          (year ∷ month ∷ day ∷ hour ∷ minute ∷ second ∷ millis ∷ [])
          json
          rest)
      ≡ noah_6f64 id meter (iso_time year month day hour minute second millis) (length json) json
unfolding parse_noah_6f64
parse_noah_6f64-meter_bytes head id meter year month day hour minute second millis json rest eight
      hi hm clock ascii two =
    let time = year ∷ month ∷ day ∷ hour ∷ minute ∷ second ∷ millis ∷ [] in
    let bytes = meter_bytes head id meter time json rest in
    let n = length json in
    let (at_id, after_id) =
      slice_at 8 30 bytes (ljust 30 id) _ (drop-append 8 head _ eight) (length-ljust 30 id hi.1) in
    let (at_meter, after_meter) =
      slice_at 38 30 bytes (ljust 30 meter) _ after_id (length-ljust 30 meter hm.1) in
    let (at_time, after_time) = slice_at 68 7 bytes time _ after_meter refl in
    let (at_len, after_len) = slice_at 75 4 bytes (four_bytes n) _ after_time refl in
    let (at_json, after_json) = slice_at 79 n bytes json _ after_len refl in
    let long : length bytes ≡ 79 + n + length rest =
      omega (arith, length-drop (79 + n) bytes, ap length after_json, two) in
    rw (
      at_id,
      at_meter,
      at_time,
      at_len,
      be-four_bytes n,
      at_json,
      timestamp_text-iso_time year month day hour minute second millis clock,
      device_text-field 30 id hi,
      device_text-field 30 meter hm,
      decode_replace_ascii json ascii,
      le→ltb_false (length bytes) 81 (omega arith),
      le→ltb_false (length bytes - 2) (79 + n) (omega arith),
    )
