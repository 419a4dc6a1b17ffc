-- ===== src/Register/Values.antt =====
-- The values that register bytes give: signed numbers, times, and sizes that have none.
use gro_bro.Prelude.{
  ℕ, ◌-◌, ◌/◌, ◌%◌, ◌≤◌, ◌<◌, ◌≡◌, refl, ◌≢◌, ◌⊎◌, inl, inr, false, ◌||◌, none, some, [], ◌∷◌,
  arith, ltb, ◌==◌, ltb→lt, ltb_false→le, Bool-cases, length,
}
use gro_bro.Register.{
  unpack_unsigned, two_complement, unpack_signed, hhmm, time_value, parse_typed, parse_value,
  DataType, enum_value, string, float, int, signed_float, signed_int, time_hhmm, ℤ, pos, negsuc,
  DataOptions, text, integer,
}
use gro_bro.Bytes.{Bytes, be}
use gro_bro.Bytes.Words.{be-word}

-- A signed 16-bit number, as it stands on the wire.
abbrev pub signed_word : ℤ → ℕ
signed_word (pos n) = n
signed_word (negsuc n) = 65535 - n

abbrev pub IsSignedWord : ℤ → Type 0
IsSignedWord (pos n) = n < 32768
IsSignedWord (negsuc n) = n < 32768

abbrev pub word_of : ℕ → Bytes
word_of n = (n / 256) ∷ (n % 256) ∷ []

two_complement-signed_word : (x : ℤ) → IsSignedWord x → two_complement 16 (signed_word x) ≡ x
two_complement-signed_word (pos n) h = ground arith
two_complement-signed_word (negsuc n) h = ground arith

unpack_unsigned-none :
    (raw : Bytes)
    → (length raw == 1 || length raw == 2 || length raw == 4) ≡ false
    → unpack_unsigned raw ≡ none
unfolding unpack_unsigned
unpack_unsigned-none raw h = rw h

unpack_signed-none :
    (raw : Bytes)
    → (length raw == 1 || length raw == 2 || length raw == 4) ≡ false
    → unpack_signed raw ≡ none
unfolding unpack_signed
unpack_signed-none raw h = ground arith

module _ (Float : Type 0) (rounded : ℤ → Float) (scaled : ℤ → Float → Float)
    (shifted : ℤ → Float → Float → Float) where
  -- A register of type SIGNED_INT that holds the two's complement of a number from -32768 to 32767
  -- has this number as its value.
  pub parse_value-signed_word :
      (self : DataOptions Float rounded scaled shifted) (x : ℤ)
      → self.data_type ≡ signed_int
      → IsSignedWord x
      → parse_value Float rounded scaled shifted self (some (word_of (signed_word x)))
        ≡ some (integer x)
  unfolding parse_value parse_typed unpack_signed
  parse_value-signed_word self x e h =
      rw (e, be-word (signed_word x), two_complement-signed_word x h)

  time_value_cases :
      (hour minute : ℕ)
      → hour < 256
      → minute < 256
      → let value = time_value Float rounded scaled shifted (be (hour ∷ minute ∷ [])) in
        ((hour < 24) × (minute < 60) × (value ≡ some (text (hhmm hour minute))))
        ⊎ (((24 ≤ hour) ⊎ (60 ≤ minute)) × (value ≡ none))
  time_value_cases hour minute hh hm =
      let at_hour : be (hour ∷ minute ∷ []) / 256 % 256 ≡ hour = omega arith in
      let at_minute : be (hour ∷ minute ∷ []) % 256 ≡ minute = omega arith in
      rw (at_hour, at_minute)
        (elim (Bool-cases (ltb 23 hour)) [
          | inl late ↦ inr (inl (ltb→lt 23 hour late), rw late)
          | inr early ↦ elim (Bool-cases (ltb 59 minute)) [
            | inl late ↦ inr (inr (ltb→lt 59 minute late), rw (early, late))
            | inr fits ↦ inl (
              omega (arith, ltb_false→le 23 hour early),
              omega (arith, ltb_false→le 59 minute fits),
              rw (early, fits),
            )
          ]
        ])

  -- A register of type TIME_HHMM with an hour byte and a minute byte is a time of the day in digits
  -- when the hour is below 24 and the minute below 60, and has no value otherwise.
  pub parse_value-time :
      (self : DataOptions Float rounded scaled shifted) (hour minute : ℕ)
      → self.data_type ≡ time_hhmm
      → hour < 256
      → minute < 256
      → ((hour < 24)
          × (minute < 60)
          × (parse_value Float rounded scaled shifted self (some (hour ∷ minute ∷ []))
              ≡ some (text (hhmm hour minute))))
        ⊎ (((24 ≤ hour) ⊎ (60 ≤ minute))
            × (parse_value Float rounded scaled shifted self (some (hour ∷ minute ∷ [])) ≡ none))
  unfolding parse_value parse_typed unpack_unsigned
  parse_value-time self hour minute e hh hm = rw e (time_value_cases hour minute hh hm)

  parse_typed-none :
      (type : DataType) (self : DataOptions Float rounded scaled shifted) (raw : Bytes)
      → type ≢ string
      → (length raw == 1 || length raw == 2 || length raw == 4) ≡ false
      → parse_typed Float rounded scaled shifted type self raw ≡ none
  unfolding parse_typed
  parse_typed-none string self raw ne h = absurd (ne refl)
  parse_typed-none float self raw ne h = rw (unpack_unsigned-none raw h)
  parse_typed-none signed_float self raw ne h = rw (unpack_signed-none raw h)
  parse_typed-none int self raw ne h = rw (unpack_unsigned-none raw h)
  parse_typed-none signed_int self raw ne h = rw (unpack_signed-none raw h)
  parse_typed-none time_hhmm self raw ne h = rw (unpack_unsigned-none raw h)
  parse_typed-none enum_value self raw ne h = rw (unpack_unsigned-none raw h)

  -- A register that is no text has no value unless its data has one, two or four bytes.
  pub parse_value-none :
      (self : DataOptions Float rounded scaled shifted) (raw : Bytes)
      → self.data_type ≢ string
      → (length raw == 1 || length raw == 2 || length raw == 4) ≡ false
      → parse_value Float rounded scaled shifted self (some raw) ≡ none
  unfolding parse_value parse_typed unpack_unsigned unpack_signed
  parse_value-none self [] ne h = refl
  parse_value-none self (b ∷ raw) ne h = parse_typed-none self.data_type self (b ∷ raw) ne h
