-- ===== src/Home/Times.antt =====
-- Times of the day, set by Home Assistant and read back from the device.
use gro_bro.Prelude.{
  ℕ, ◌+◌, ◌*◌, ◌/◌, ◌%◌, ◌<◌, ◌≡◌, refl, ap, ◌∙◌, inl, inr, true, false, ◌||◌, some, List, [], ◌∷◌,
  arith, ltb, ◌==◌, le→leb,
}
use gro_bro.Client.Topic.{is_space, strip_space, is_digit, int_of_text}
use gro_bro.Home.Commands.{split_colons, parsed_value, time, value}
use gro_bro.Register.{two_digits, hhmm, parse_value, time_hhmm, ℤ, pos, DataOptions, text}
use gro_bro.Bytes.{Text, be}
use gro_bro.Register.Values.{parse_value-time}

digit-space : (n : ℕ) → n < 10 → is_space (b'0' + n) ≡ false
digit-space n h = ground arith

digit_tests :
    (n : ℕ)
    → n < 10
    → (is_space (b'0' + n) ≡ false)
      × (is_digit (b'0' + n) ≡ true)
      × (((b'0' + n) == b'-') ≡ false)
      × (((b'0' + n) == b'+') ≡ false)
      × (((b'0' + n) == b'_') ≡ false)
      × (((b'0' + n) == b':') ≡ false)
      × ((ltb (b'0' + n) 28 || ltb 31 (b'0' + n)) ≡ true)
digit_tests n h = ground arith

digits_int :
    (a b : ℕ)
    → a < 10
    → b < 10
    → int_of_text ((b'0' + a) ∷ (b'0' + b) ∷ []) ≡ some (pos (a * 10 + b))
unfolding int_of_text
digits_int a b ha hb =
    let (space_a, digit_a, minus_a, plus_a, under_a, colon_a, plain_a) = digit_tests a ha in
    let (space_b, digit_b, minus_b, plus_b, under_b, colon_b, plain_b) = digit_tests b hb in
    rw (space_b, space_a, digit_a, digit_b, minus_a, plus_a, under_a, under_b, plain_a, plain_b)
      (ap (λ (k : ℕ). some (pos k)) (omega arith))

two_digits-int : (n : ℕ) → n < 60 → int_of_text (two_digits n) ≡ some (pos n)
unfolding int_of_text
two_digits-int n h =
    digits_int (n / 10) (n % 10) (omega arith) (omega arith)
    ∙ ap (λ (k : ℕ). some (pos k)) (omega arith)

strip_space-hhmm :
    (hour minute : ℕ) → hour < 24 → minute < 60 → strip_space (hhmm hour minute) ≡ hhmm hour minute
strip_space-hhmm hour minute hh hm =
    rw (digit-space (minute % 10) (omega arith), digit-space (hour / 10) (omega arith)) refl

split_colons-hhmm :
    (hour minute : ℕ)
    → hour < 24
    → minute < 60
    → split_colons [] (hhmm hour minute) ≡ two_digits hour ∷ two_digits minute ∷ []
split_colons-hhmm hour minute hh hm =
    let colon = λ (n : ℕ) (h : n < 10). (digit_tests n h).5 in
    rw
      (
        colon (hour / 10) (omega arith),
        colon (hour % 10) (omega arith),
        colon (minute / 10) (omega arith),
        colon (minute % 10) (omega arith),
      )
      refl

-- A time of the day that Home Assistant sets, in digits as the device reports it, is sent as the word
-- of its hour and minute bytes, and a register of type TIME_HHMM with these two bytes is read back
-- as the same text.
pub parsed_value-parse_value :
    (Float : Type 0) (rounded : ℤ → Float) (scaled : ℤ → Float → Float)
    (shifted : ℤ → Float → Float → Float) (self : DataOptions Float rounded scaled shifted)
    (options : List (Text × Text)) (hour minute : ℕ)
    → self.data_type ≡ time_hhmm
    → hour < 24
    → minute < 60
    → (parsed_value time options (hhmm hour minute) ≡ value (pos (be (hour ∷ minute ∷ []))))
      × (parse_value Float rounded scaled shifted self (some (hour ∷ minute ∷ []))
          ≡ some (text (hhmm hour minute)))
unfolding parsed_value
parsed_value-parse_value Float rounded scaled shifted self options hour minute e hh hm = (
  rw
      (
        strip_space-hhmm hour minute hh hm,
        split_colons-hhmm hour minute hh hm,
        two_digits-int hour (omega arith),
        two_digits-int minute hm,
        le→leb hour 23 (omega arith),
        le→leb minute 59 (omega arith),
      )
      (ap (λ (k : ℕ). value (pos k)) (omega arith)),
  elim (parse_value-time Float rounded scaled shifted self hour minute e (omega arith)
      (omega arith)) [
        | inl (early, fits, same) ↦ same
        | inr (inl late, same) ↦ absurd (omega arith)
        | inr (inr late, same) ↦ absurd (omega arith)
      ],
)
