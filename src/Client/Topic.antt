-- ===== src/Client/Topic.antt =====
-- Texts of topics, serial numbers and numbers, as grobro/grobro/client.py reads them: for ASCII, the
-- whitespace of `str.strip`, `_extract_device_id`, and what `int` makes of a text.
use gro_bro.Prelude.{
  ℕ, zero, suc, ◌+◌, ◌-◌, ◌*◌, ◌/◌, ◌%◌, Bool, true, false, not, ◌&&◌, ◌||◌, Option, none, some, [],
  ◌∷◌, ◌++◌, ltb, leb, ◌==◌, if◌then◌else◌, all,
}
use gro_bro.Bytes.{Text}
use gro_bro.Register.{ℤ, pos, negsuc}

abbrev pub is_space : ℕ → Bool
is_space c = (leb 9 c && leb c 13) || (leb 28 c && leb c 32)

abbrev pub drop_spaces : Text → Text
drop_spaces [] = []
drop_spaces (c ∷ s) = if is_space c then drop_spaces s else c ∷ s

abbrev pub keep_front : ℕ → Text → Text
keep_front c [] = if is_space c then [] else c ∷ []
keep_front c (d ∷ s) = c ∷ d ∷ s

abbrev pub drop_spaces_behind : Text → Text
drop_spaces_behind [] = []
drop_spaces_behind (c ∷ s) = keep_front c (drop_spaces_behind s)

-- `s.strip()`
abbrev pub strip_space : Text → Text
strip_space s = drop_spaces (drop_spaces_behind s)

abbrev pub is_digit : ℕ → Bool
is_digit c = leb b'0' c && leb c b'9'

abbrev pub is_alnum : ℕ → Bool
is_alnum c = is_digit c || (leb b'A' c && leb c b'Z') || (leb b'a' c && leb c b'z')

-- `rsplit("/", 1)[-1]`
abbrev pub last_segment : Text → Text → Text
last_segment segment [] = segment
last_segment segment (c ∷ s) = last_segment (if c == b'/' then [] else segment ++ c ∷ []) s

abbrev pub keep_alnum : Text → Text
keep_alnum [] = []
keep_alnum (c ∷ s) = if is_alnum c then c ∷ keep_alnum s else keep_alnum s

unfoldable pub extract_device_id : Text → Text
extract_device_id topic = keep_alnum (last_segment [] topic)

-- `split("/")[0]`
abbrev pub first_segment : Text → Text
first_segment [] = []
first_segment (c ∷ s) = if c == b'/' then [] else c ∷ first_segment s

abbrev pub starts_with : Text → Text → Bool
starts_with [] s = true
starts_with (p ∷ prefix) [] = false
starts_with (p ∷ prefix) (c ∷ s) = p == c && starts_with prefix s

-- Digits, with single underscores between them; `acc` is the number so far.
abbrev pub digits_value : ℕ → Bool → Text → Option ℕ
digits_value acc after_digit [] = if after_digit then some acc else none
digits_value acc after_digit (c ∷ s) =
    let next = digits_value (if c == b'_' then acc else acc * 10 + (c - b'0')) (is_digit c) s in
    if is_digit c || (c == b'_' && after_digit) then next else none

abbrev pub negated : ℕ → ℤ
negated zero = pos zero
negated (suc n) = negsuc n

abbrev pub negative : Option ℕ → Option ℤ
negative none = none
negative (some n) = some (negated n)

abbrev pub positive : Option ℕ → Option ℤ
positive none = none
positive (some n) = some (pos n)

abbrev pub signed_value : Text → Option ℤ
signed_value [] = none
signed_value (c ∷ s) =
    if c == b'-'
    then negative (digits_value 0 false s)
    else if c == b'+'
    then positive (digits_value 0 false s)
    else positive (digits_value 0 false (c ∷ s))

abbrev pub count_digits : Text → ℕ
count_digits [] = 0
count_digits (c ∷ s) = (if is_digit c then 1 else 0) + count_digits s

-- `int(s)`; none is ValueError, which the separators that `int` does not strip and more than 4300
-- digits give too.
unfoldable pub int_of_text : Text → Option ℤ
int_of_text s =
    let value = signed_value (strip_space s) in
    if not (all (λ c. ltb c 28 || ltb 31 c) s) || ltb 4300 (count_digits s) then none else value

-- `str(n)`; each round takes a digit, the last one first.
abbrev pub decimal_loop : ℕ → ℕ → Text → Text
decimal_loop zero n digits = digits
decimal_loop (suc fuel) n digits =
    let rest = decimal_loop fuel (n / 10) ((b'0' + n % 10) ∷ digits) in
    if ltb n 10 then (b'0' + n) ∷ digits else rest

unfoldable pub decimal : ℕ → Text
decimal n = decimal_loop (suc n) n []

unfoldable pub text_of_int : ℤ → Text
text_of_int (pos n) = decimal n
text_of_int (negsuc n) = b'-' ∷ decimal (suc n)
