-- ===== src/Battery/Keys.antt =====
-- The names of a battery slot's values, `_BAT_KEY_PATTERNS`: which slot a name is of, and the name of
-- the same value in another slot.
use gro_bro.Prelude.{
  ◌>>=◌, ℕ, ◌-◌, Bool, true, false, ◌&&◌, ◌||◌, Option, none, some, [], ◌∷◌, ◌++◌, leb, ◌==◌,
  if◌then◌else◌,
}
use gro_bro.Bytes.{Text}
use gro_bro.Dicts.{codes}
use gro_bro.Client.Topic.{decimal}
use gro_bro.Family.{is_text}

-- The rest behind a prefix.
abbrev pub after_prefix : Text → Text → Option Text
after_prefix [] s = some s
after_prefix (p ∷ ps) [] = none
after_prefix (p ∷ ps) (c ∷ s) = let rest = after_prefix ps s in if p == c then rest else none

-- The lookaheads `(?=_)`, `(?=[A-Z_])` and `(?=$|_)`; `$` stands before a last line break too.
abbrev pub before_underscore : Text → Bool
before_underscore [] = false
before_underscore (c ∷ s) = c == b'_'

abbrev pub before_capital : Text → Bool
before_capital [] = false
before_capital (c ∷ s) = (leb b'A' c && leb c b'Z') || c == b'_'

abbrev pub at_end : Text → Bool
at_end [] = true
at_end (c ∷ s) = (c == 10 && is_text s []) || c == b'_'

-- `match.group(1)` between what stands before and behind it.
pub record Parts : Type 0 where
  pub head : Text
  pub slot : ℕ
  pub tail : Text

abbrev pub digit_match : Text → (Text → Bool) → Text → Option Parts
digit_match prefix ahead [] = none
digit_match prefix ahead (c ∷ s) =
    if (leb b'2' c && leb c b'4') && ahead s
    then some (record { head = prefix; slot = c - b'0'; tail = s })
    else none

abbrev pub pattern_match : Text → (Text → Bool) → Text → Option Parts
pattern_match prefix ahead name = after_prefix prefix name >>= digit_match prefix ahead

infixr 30 ◌or◌
abbrev pub ◌or◌ : Option Parts → Option Parts → Option Parts
(some m) or other = some m
none or other = other

-- The first of the patterns that matches.
unfoldable pub match_key : Text → Option Parts
match_key name =
    pattern_match (codes "bat") before_underscore name
    or pattern_match (codes "bat_") before_underscore name
    or pattern_match (codes "battery") before_capital name
    or pattern_match (codes "maxcvbat") at_end name
    or pattern_match (codes "mincvbat") at_end name

abbrev pub slot_of : Option Parts → Option ℕ
slot_of none = none
slot_of (some m) = some m.slot

unfoldable pub logical_slot_from_key : Text → Option ℕ
logical_slot_from_key name = slot_of (match_key name)

abbrev pub with_slot_text : Text → Text → Option Parts → Text
with_slot_text name slot_text none = name
with_slot_text name slot_text (some m) = m.head ++ (slot_text ++ m.tail)

unfoldable pub remap_key : Text → ℕ → Text
remap_key name logical_slot = with_slot_text name (decimal logical_slot) (match_key name)
