-- ===== src/Dicts.antt =====
-- Python's dicts keyed by texts, in insertion order, and texts written as string literals.
use Prim.Native.Char.{code}
use Prim.Native.String.{String}
use gro_bro.Prelude.{
  ℕ, ◌≡◌, refl, ◌↔◌, true, Option, none, some, List, [], ◌∷◌, arith, if◌then◌else◌,
}
use gro_bro.Bytes.{Text}
use gro_bro.Family.{is_text}

-- The code points of a literal.
abbrev pub codes : String → List ℕ
codes String.[] = []
codes (String.◌∷◌ c s) = code c ∷ codes s

pub is_text_iff : (s t : Text) → (is_text s t ≡ true) ↔ (s ≡ t)
is_text_iff [] [] = ground arith
is_text_iff [] (d ∷ t) = ground arith
is_text_iff (c ∷ s) [] = ground arith
is_text_iff (c ∷ s) (d ∷ t) = ground (arith, is_text_iff s t)

abbrev pub TextDict {ℓ} : Type ℓ → Type ℓ
TextDict V = List (Text × V)

module _ {ℓ} {V : Type ℓ} where
  -- `d.get(k)`
  abbrev pub get_item : Text → TextDict V → Option V
  get_item k [] = none
  get_item k ((j, v) ∷ d) = if is_text k j then some v else get_item k d

  -- `d[k] = v`
  abbrev pub set_item : Text → V → TextDict V → TextDict V
  set_item k v [] = (k, v) ∷ []
  set_item k v ((j, w) ∷ d) =
      let rest = set_item k v d in if is_text k j then (k, v) ∷ d else (j, w) ∷ rest

  -- `d.pop(k, None)`
  abbrev pub del_item : Text → TextDict V → TextDict V
  del_item k [] = []
  del_item k ((j, w) ∷ d) = let rest = del_item k d in if is_text k j then rest else (j, w) ∷ rest

  -- No key stands twice, as in every dict.
  abbrev pub IsDict : TextDict V → Type ℓ
  IsDict [] = Unit
  IsDict ((k, v) ∷ d) = (get_item k d ≡ none) × IsDict d

  pub get_item-set_item :
      (j k : Text) (v : V) (d : TextDict V)
      → get_item j (set_item k v d) ≡ (if is_text j k then some v else get_item j d)
  get_item-set_item j k v [] = refl
  get_item-set_item j k v ((i, w) ∷ d) =
      ground (arith, is_text_iff j k, is_text_iff k i, is_text_iff j i, get_item-set_item j k v d)

  pub get_item-del_item :
      (j k : Text) (d : TextDict V)
      → get_item j (del_item k d) ≡ (if is_text j k then none else get_item j d)
  get_item-del_item j k [] = ground arith
  get_item-del_item j k ((i, w) ∷ d) =
      ground (arith, is_text_iff j k, is_text_iff k i, is_text_iff j i, get_item-del_item j k d)

  pub set_item-IsDict : (k : Text) (v : V) (d : TextDict V) → IsDict d → IsDict (set_item k v d)
  set_item-IsDict k v [] h = (refl, tt)
  set_item-IsDict k v ((i, w) ∷ d) (fresh, h) =
      ground (
        arith,
        is_text_iff k i,
        is_text_iff i k,
        set_item-IsDict k v d h,
        get_item-set_item i k v d,
      )

  pub del_item-IsDict : (k : Text) (d : TextDict V) → IsDict d → IsDict (del_item k d)
  del_item-IsDict k [] h = tt
  del_item-IsDict k ((i, w) ∷ d) (fresh, h) =
      ground (arith, is_text_iff k i, del_item-IsDict k d h, get_item-del_item i k d)
