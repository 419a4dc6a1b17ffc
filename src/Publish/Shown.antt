-- ===== src/Publish/Shown.antt =====
-- The values of a prepared payload, and the packs that it shows.
use gro_bro.Prelude.{
  ℕ, ◌≡◌, refl, sym, inl, inr, Bool, true, Option, none, some, [], ◌∷◌, arith, if◌then◌else◌,
  Bool-cases,
}
use gro_bro.Bytes.{Text}
use gro_bro.Battery.Keys.{before_underscore, before_capital, at_end, logical_slot_from_key}
use gro_bro.Register.{ℤ}
use gro_bro.Publish.Rules.{Rules}
use gro_bro.Publish.Prepare.{
  leading_digits, get_bat_number, is_hidden, prepared_value, prepare_items,
}
use gro_bro.Dicts.{codes, is_text_iff, TextDict, get_item, IsDict, get_item-set_item}
use gro_bro.Cells.{Cell}
use gro_bro.Battery.Moves.{◌orelse◌}
use gro_bro.Battery.Renames.{Holds, logical_slot_from_key-Holds}
use gro_bro.Family.{is_text}

-- A value of a dict under a function, None for a missing key.
abbrev pub mapped {ℓ κ} : {A : Type ℓ} {B : Type κ} → (A → B) → Option A → Option B
mapped f none = none
mapped f (some a) = some (f a)

digits_before_underscore : (t : Text) → before_underscore t ≡ true → leading_digits t ≡ []
digits_before_underscore [] h = refl
digits_before_underscore (c ∷ t) h = ground arith

digits_before_capital : (t : Text) → before_capital t ≡ true → leading_digits t ≡ []
digits_before_capital [] h = refl
digits_before_capital (c ∷ t) h = ground arith

digits_at_end : (t : Text) → at_end t ≡ true → leading_digits t ≡ []
digits_at_end [] h = refl
digits_at_end (c ∷ t) h = ground arith

abbrev Numbered : Text → ℕ → Type 0
Numbered name l = get_bat_number name ≡ some l

Numbered-bat : Holds Numbered (codes "bat") before_underscore
unfolding get_bat_number
Numbered-bat l t (inl e) h = rw (e, digits_before_underscore t h) refl
Numbered-bat l t (inr (inl e)) h = rw (e, digits_before_underscore t h) refl
Numbered-bat l t (inr (inr e)) h = rw (e, digits_before_underscore t h) refl

Numbered-underscore : Holds Numbered (codes "bat_") before_underscore
unfolding get_bat_number
Numbered-underscore l t (inl e) h = rw (e, digits_before_underscore t h) refl
Numbered-underscore l t (inr (inl e)) h = rw (e, digits_before_underscore t h) refl
Numbered-underscore l t (inr (inr e)) h = rw (e, digits_before_underscore t h) refl

Numbered-battery : Holds Numbered (codes "battery") before_capital
unfolding get_bat_number
Numbered-battery l t (inl e) h = rw (e, digits_before_capital t h) refl
Numbered-battery l t (inr (inl e)) h = rw (e, digits_before_capital t h) refl
Numbered-battery l t (inr (inr e)) h = rw (e, digits_before_capital t h) refl

Numbered-maxcv : Holds Numbered (codes "maxcvbat") at_end
unfolding get_bat_number
Numbered-maxcv l t (inl e) h = rw (e, digits_at_end t h) refl
Numbered-maxcv l t (inr (inl e)) h = rw (e, digits_at_end t h) refl
Numbered-maxcv l t (inr (inr e)) h = rw (e, digits_at_end t h) refl

Numbered-mincv : Holds Numbered (codes "mincvbat") at_end
unfolding get_bat_number
Numbered-mincv l t (inl e) h = rw (e, digits_at_end t h) refl
Numbered-mincv l t (inr (inl e)) h = rw (e, digits_at_end t h) refl
Numbered-mincv l t (inr (inr e)) h = rw (e, digits_at_end t h) refl

-- The two parsers of names agree: a name of a battery slot has the slot's number.
pub get_bat_number-logical_slot_from_key :
    (name : Text) (p : ℕ) → logical_slot_from_key name ≡ some p → get_bat_number name ≡ some p
get_bat_number-logical_slot_from_key =
    logical_slot_from_key-Holds Numbered Numbered-bat Numbered-underscore Numbered-battery
      Numbered-maxcv Numbered-mincv

module _ (Float : Type 0) (repr : Float → Text) (is_absent : Float → Bool)
    (rounded integral : Float → Option ℤ) where
  abbrev value_in : Rules → Text → Cell Float → Cell Float
  value_in = prepared_value Float repr is_absent rounded integral

  pub prepare_items-lookup :
      (rules : Rules) (most : ℕ) (items payload : TextDict (Cell Float)) (key : Text)
      → IsDict items
      → get_item key (prepare_items Float repr is_absent rounded integral rules most items payload)
        ≡ (if is_hidden most (get_bat_number key)
            then get_item key payload
            else (mapped (value_in rules key) (get_item key items) orelse get_item key payload))
  prepare_items-lookup rules most [] payload key h =
      elim (Bool-cases (is_hidden most (get_bat_number key))) [
        | inl e ↦ rw e refl
        | inr e ↦ rw e refl
      ]
  prepare_items-lookup rules most ((k, v) ∷ items) payload key h =
      elim (Bool-cases (is_text key k)) [
        | inl same ↦
            let eq : key ≡ k = (is_text_iff key k).0 same in
            let fresh : get_item key items ≡ none = rw eq h.0 in
            elim (Bool-cases (is_hidden most (get_bat_number key))) [
              | inl hidden ↦
                  rw (prepare_items-lookup rules most items _ key h.1, sym eq, hidden) refl
              | inr shown ↦
                  rw
                    (
                      prepare_items-lookup rules most items _ key h.1,
                      fresh,
                      sym eq,
                      shown,
                      get_item-set_item key key (value_in rules key v) payload,
                      (is_text_iff key key).1 refl,
                    )
                    refl
            ]
        | inr other ↦ elim (Bool-cases (is_hidden most (get_bat_number k))) [
          | inl hidden ↦ rw (prepare_items-lookup rules most items _ key h.1, hidden, other) refl
          | inr shown ↦
              rw
                (
                  prepare_items-lookup rules most items _ key h.1,
                  shown,
                  get_item-set_item key k (value_in rules k v) payload,
                  other,
                )
                refl
        ]
      ]
