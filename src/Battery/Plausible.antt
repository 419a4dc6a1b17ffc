-- ===== src/Battery/Plausible.antt =====
-- A plausible serial number is left as it is by `_clean_serial_part`.
use gro_bro.Prelude.{ℕ, ◌≡◌, refl, ap, ◌∙◌, true, false, [], ◌∷◌, arith, ◌==◌, if_none, all, All}
use gro_bro.Bytes.{Text, lstrip, cons_kept, rstrip, strip}
use gro_bro.Battery.Serials.{clean_text, is_serial_char, is_plausible_serial}
use gro_bro.Client.Topic.{is_space, drop_spaces, keep_front, drop_spaces_behind, strip_space}

abbrev AllSerial : Text → Type 0
AllSerial = All (λ c. is_serial_char c ≡ true)

-- A character of a serial number is no white space and no NUL.
serial_char_kept : (c : ℕ) → is_serial_char c ≡ true → (is_space c ≡ false) × ((c == 0) ≡ false)
serial_char_kept c h = (ground arith, ground arith)

drop_spaces-AllSerial : (s : Text) → AllSerial s → drop_spaces s ≡ s
drop_spaces-AllSerial [] h = refl
drop_spaces-AllSerial (c ∷ s) h = if_none (drop_spaces s) (serial_char_kept c h.0).0

drop_spaces_behind-AllSerial : (s : Text) → AllSerial s → drop_spaces_behind s ≡ s
drop_spaces_behind-AllSerial [] h = refl
drop_spaces_behind-AllSerial (c ∷ []) h = if_none [] (serial_char_kept c h.0).0
drop_spaces_behind-AllSerial (c ∷ d ∷ s) h =
    ap (keep_front c) (drop_spaces_behind-AllSerial (d ∷ s) h.1)

strip_space-AllSerial : (s : Text) → AllSerial s → strip_space s ≡ s
strip_space-AllSerial s h =
    ap drop_spaces (drop_spaces_behind-AllSerial s h) ∙ drop_spaces-AllSerial s h

lstrip-AllSerial : (s : Text) → AllSerial s → lstrip s ≡ s
lstrip-AllSerial [] h = refl
lstrip-AllSerial (c ∷ s) h = if_none (lstrip s) (serial_char_kept c h.0).1

rstrip-AllSerial : (s : Text) → AllSerial s → rstrip s ≡ s
rstrip-AllSerial [] h = refl
rstrip-AllSerial (c ∷ []) h = if_none [] (serial_char_kept c h.0).1
rstrip-AllSerial (c ∷ d ∷ s) h = ap (cons_kept c) (rstrip-AllSerial (d ∷ s) h.1)

all-AllSerial : (s : Text) → all is_serial_char s ≡ true → AllSerial s
all-AllSerial [] h = tt
all-AllSerial (c ∷ s) h = (ground arith, all-AllSerial s (ground arith))

plausible-AllSerial : (s : Text) → is_plausible_serial s ≡ true → AllSerial s
unfolding is_plausible_serial
plausible-AllSerial s h = all-AllSerial s (ground arith)

-- A plausible serial number is clean.
pub clean_text-plausible : (s : Text) → is_plausible_serial s ≡ true → clean_text s ≡ s
clean_text-plausible s h =
    let a = plausible-AllSerial s h in
    ap (λ t. strip_space (strip t)) (strip_space-AllSerial s a)
    ∙ ap strip_space (ap lstrip (rstrip-AllSerial s a) ∙ lstrip-AllSerial s a)
    ∙ strip_space-AllSerial s a
