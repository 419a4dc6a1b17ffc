-- ===== src/Client/Strip.antt =====
-- `str.strip` leaves a stripped text as it is.
use gro_bro.Prelude.{ℕ, ◌≡◌, refl, ap, ◌∙◌, inl, inr, [], ◌∷◌, if◌then◌else◌, Bool-cases, if_splits}
use gro_bro.Bytes.{Text}
use gro_bro.Client.Topic.{is_space, drop_spaces, keep_front, drop_spaces_behind, strip_space}

keep_front_stays :
    (c : ℕ) (s : Text) → drop_spaces_behind (keep_front c s) ≡ keep_front c (drop_spaces_behind s)
keep_front_stays c [] =
    if_splits (λ t. drop_spaces_behind t ≡ (if is_space c then [] else c ∷ [])) (is_space c)
      (λ e. rw e refl) (λ e. rw e refl)
keep_front_stays c (d ∷ s) = refl

drop_spaces_behind_idem :
    (s : Text) → drop_spaces_behind (drop_spaces_behind s) ≡ drop_spaces_behind s
drop_spaces_behind_idem [] = refl
drop_spaces_behind_idem (c ∷ s) =
    keep_front_stays c (drop_spaces_behind s) ∙ ap (keep_front c) (drop_spaces_behind_idem s)

drop_spaces_idem : (s : Text) → drop_spaces (drop_spaces s) ≡ drop_spaces s
drop_spaces_idem [] = refl
drop_spaces_idem (c ∷ s) =
    if_splits (λ t. drop_spaces t ≡ t) (is_space c) (λ e. drop_spaces_idem s) (λ e. rw e refl)

drop_spaces-keep_front :
    (c : ℕ) (s : Text)
    → drop_spaces (keep_front c s) ≡ (if is_space c then drop_spaces s else keep_front c s)
drop_spaces-keep_front c [] = elim (Bool-cases (is_space c)) [
  | inl e ↦ rw e refl
  | inr e ↦ rw e (rw e refl)
]
drop_spaces-keep_front c (d ∷ s) = refl

drop_spaces-drop_spaces_behind :
    (s : Text) → drop_spaces_behind (drop_spaces s) ≡ drop_spaces (drop_spaces_behind s)
drop_spaces-drop_spaces_behind [] = refl
drop_spaces-drop_spaces_behind (c ∷ s) = elim (Bool-cases (is_space c)) [
  | inl e ↦
      rw (e, drop_spaces-keep_front c (drop_spaces_behind s), e) (drop_spaces-drop_spaces_behind s)
  | inr e ↦ rw (e, drop_spaces-keep_front c (drop_spaces_behind s), e) refl
]

pub strip_space_idem : (s : Text) → strip_space (strip_space s) ≡ strip_space s
strip_space_idem s =
    ap drop_spaces (drop_spaces-drop_spaces_behind (drop_spaces_behind s))
    ∙ drop_spaces_idem (drop_spaces_behind (drop_spaces_behind s))
    ∙ ap drop_spaces (drop_spaces_behind_idem s)
