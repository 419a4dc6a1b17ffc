-- ===== src/Tests/Json.antt =====
-- JSON values of texts and objects, for the tests of the files, without null.
use gro_bro.Prelude.{
  ℕ, ◌≡◌, refl, ap, subst, ◌∙◌, inl, inr, Bool, false, Option, none, some, List, [], ◌∷◌, arith,
  Bool-cases,
}
use gro_bro.Bytes.{Text}
use gro_bro.Dicts.{
  codes, is_text_iff, TextDict, get_item, set_item, IsDict, get_item-set_item, set_item-IsDict,
}
use gro_bro.Register.{ℤ, pos}
use gro_bro.Client.Topic.{int_of_text, decimal}
use gro_bro.Battery.Moves.{◌orelse◌}
use gro_bro.Battery.Expected.{orelse-none}
use gro_bro.Family.{is_text}

mutual
  pub data Json : Type 0 where
    word : Text → Json
    number : ℕ → Json
    array : Items → Json
    object : Fields → Json

  pub data Items : Type 0 where
    stop : Items
    item : Json → Items → Items

  pub data Fields : Type 0 where
    end : Fields
    field : Text → Json → Fields → Fields

-- Of equal names the last one counts.
abbrev items : Fields → TextDict Json → TextDict Json
items end d = d
items (field name value rest) d = items rest (set_item name value d)

abbrev pub as_dict : Json → Option (TextDict Json)
as_dict (word t) = none
as_dict (number n) = none
as_dict (array js) = none
as_dict (object fields) = some (items fields [])

abbrev fields_of : TextDict Json → Fields
fields_of [] = end
fields_of ((name, value) ∷ d) = field name value (fields_of d)

abbrev pub of_dict : TextDict Json → Json
of_dict d = object (fields_of d)

abbrev pub to_int : Json → Option ℤ
to_int (word t) = int_of_text t
to_int (number n) = some (pos n)
to_int (array js) = none
to_int (object fields) = none

abbrev pub to_str : Json → Text
to_str (word t) = t
to_str (number n) = decimal n
to_str (array js) = codes "[]"
to_str (object fields) = codes "{}"

abbrev list_of : Items → List Json
list_of stop = []
list_of (item j js) = j ∷ list_of js

abbrev items_of : List Json → Items
items_of [] = stop
items_of (j ∷ js) = item j (items_of js)

abbrev pub as_list : Json → Option (List Json)
as_list (array js) = some (list_of js)
as_list _ = none

abbrev pub of_list : List Json → Json
of_list js = array (items_of js)

abbrev pub is_null : Json → Bool
is_null j = false

list_of-items_of : (js : List Json) → list_of (items_of js) ≡ js
list_of-items_of [] = refl
list_of-items_of (j ∷ js) = ap (λ ks. j ∷ ks) (list_of-items_of js)

pub dump_list : (js : List Json) → as_list (of_list js) ≡ some js
dump_list js = ap some (list_of-items_of js)

items-IsDict : (fields : Fields) (d : TextDict Json) → IsDict d → IsDict (items fields d)
items-IsDict end d h = h
items-IsDict (field name value rest) d h =
    items-IsDict rest (set_item name value d) (set_item-IsDict name value d h)

pub read_dict : (j : Json) (d : TextDict Json) → as_dict j ≡ some d → IsDict d
read_dict (word t) d e = cc
read_dict (number n) d e = cc
read_dict (array js) d e = cc
read_dict (object fields) d e =
    let eq : items fields [] ≡ d = ground arith in subst IsDict eq (items-IsDict fields [] tt)

items-fields_of :
    (c d : TextDict Json) (k : Text)
    → IsDict c
    → get_item k (items (fields_of c) d) ≡ (get_item k c orelse get_item k d)
items-fields_of [] d k h = refl
items-fields_of ((name, value) ∷ c) d k h = elim (Bool-cases (is_text k name)) [
  | inr other ↦
      rw
        (
          other,
          items-fields_of c (set_item name value d) k h.1,
          get_item-set_item k name value d,
          other,
        )
        refl
  | inl same ↦
      let eq : k ≡ name = (is_text_iff k name).0 same in
      let fresh : get_item k c ≡ none = rw eq h.0 in
      rw
        (
          same,
          items-fields_of c (set_item name value d) k h.1,
          fresh,
          get_item-set_item k name value d,
          same,
        )
        refl
]

pub dump_dict :
    (d : TextDict Json)
    → IsDict d
    → (d' : TextDict Json) × (as_dict (of_dict d) ≡ some d')
      × IsDict d'
      × ((k : Text) → get_item k d' ≡ get_item k d)
dump_dict d h = (
  items (fields_of d) [],
  refl,
  items-IsDict (fields_of d) [] tt,
  λ k. items-fields_of d [] k h ∙ orelse-none (get_item k d),
)
