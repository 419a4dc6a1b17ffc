-- ===== src/Client/Allowlist.antt =====
-- The allowlist of the cloud setting, through both parses of it.
use gro_bro.Prelude.{
  ℕ, ◌≡◌, refl, sym, ap, subst, ◌∙◌, Bool, true, false, ◌&&◌, ◌||◌, Option, some, List, [], ◌∷◌,
  ◌++◌, append-nil, append_assoc, arith, ◌==◌, ==_iff, if_keeps, if_splits, All, All-append,
}
use gro_bro.Bytes.{Text}
use gro_bro.Client.Topic.{is_space, drop_spaces, drop_spaces_behind, strip_space, is_alnum}
use gro_bro.Family.{is_text, has_text}
use gro_bro.Client.Policy.{
  lower, true_text, false_text, false_values, or_false, add_item, split_items, parse_policy,
  allows_device, join_items, is_before, insert_sorted, sorted_set, current_value, env_value,
  current_cloud_policy, CloudForwardingPolicy,
}

-- A serial number of a setting: letters and digits, at least one, and none of the words.
abbrev pub IsName : Text → Type 0
IsName t =
    All (λ c. is_alnum c ≡ true) t
    × (is_text t [] ≡ false)
    × (has_text (lower t) (true_text ∷ false_values) ≡ false)

abbrev IsDense : Text → Type 0
IsDense t = All (λ c. is_space c ≡ false) t

drop_spaces_behind-IsDense : (t : Text) → IsDense t → drop_spaces_behind t ≡ t
drop_spaces_behind-IsDense [] h = refl
drop_spaces_behind-IsDense (c ∷ []) h = rw h.0 refl
drop_spaces_behind-IsDense (c ∷ d ∷ t) h = rw (drop_spaces_behind-IsDense (d ∷ t) h.1) refl

drop_spaces-IsDense : (t : Text) → IsDense t → drop_spaces t ≡ t
drop_spaces-IsDense [] h = refl
drop_spaces-IsDense (c ∷ t) h = rw h.0 refl

strip_space-IsDense : (t : Text) → IsDense t → strip_space t ≡ t
strip_space-IsDense t h = rw (drop_spaces_behind-IsDense t h) (drop_spaces-IsDense t h)

alnum-IsDense : (t : Text) → All (λ c. is_alnum c ≡ true) t → IsDense t
alnum-IsDense [] h = tt
alnum-IsDense (c ∷ t) h = (ground arith, alnum-IsDense t h.1)

alnum_not_comma : (c : ℕ) → is_alnum c ≡ true → (c == b',') ≡ false
alnum_not_comma c h = ground arith

add_item-IsName :
    (t : Text) (items : List Text) → is_text t [] ≡ false → add_item t items ≡ t ∷ items
add_item-IsName [] items h = cc
add_item-IsName (c ∷ t) items h = refl

split_items_to_end :
    (item t : Text)
    → All (λ c. is_alnum c ≡ true) t
    → split_items item t ≡ add_item (strip_space (item ++ t)) []
split_items_to_end item [] h = rw (append-nil item) refl
split_items_to_end item (c ∷ t) h =
    rw (alnum_not_comma c h.0)
      (split_items_to_end (item ++ c ∷ []) t h.1 ∙ rw (append_assoc item (c ∷ []) t) refl)

split_items_to_comma :
    (item t rest : Text)
    → All (λ c. is_alnum c ≡ true) t
    → split_items item (t ++ b',' ∷ rest) ≡ add_item (strip_space (item ++ t)) (split_items [] rest)
split_items_to_comma item [] rest h = rw (append-nil item) refl
split_items_to_comma item (c ∷ t) rest h =
    rw (alnum_not_comma c h.0)
      (split_items_to_comma (item ++ c ∷ []) t rest h.1 ∙ rw (append_assoc item (c ∷ []) t) refl)

split_items-join_items :
    (t : Text) (ts : List Text)
    → All IsName (t ∷ ts)
    → split_items [] (join_items (t ∷ ts)) ≡ t ∷ ts
split_items-join_items t [] h =
    split_items_to_end [] t h.0.0
    ∙ rw (strip_space-IsDense t (alnum-IsDense t h.0.0)) (add_item-IsName t [] h.0.1)
split_items-join_items t (u ∷ ts) h =
    split_items_to_comma [] t (join_items (u ∷ ts)) h.0.0
    ∙ rw (strip_space-IsDense t (alnum-IsDense t h.0.0), split_items-join_items u ts h.1)
        (add_item-IsName t (u ∷ ts) h.0.1)

join_items-IsDense : (ts : List Text) → All IsName ts → IsDense (join_items ts)
join_items-IsDense [] h = tt
join_items-IsDense (t ∷ []) h = alnum-IsDense t h.0.0
join_items-IsDense (t ∷ u ∷ ts) h =
    All-append (λ c. is_space c ≡ false) t (b',' ∷ join_items (u ∷ ts)) (alnum-IsDense t h.0.0)
      (refl, join_items-IsDense (u ∷ ts) h.1)

lower-append : (s t : Text) → lower (s ++ t) ≡ lower s ++ lower t
lower-append [] t = refl
lower-append (c ∷ s) t = rw (lower-append s t) refl

is_text-comma :
    (s t w : Text) → All (λ c. (b',' == c) ≡ false) w → is_text (s ++ b',' ∷ t) w ≡ false
is_text-comma [] t [] h = refl
is_text-comma [] t (c ∷ w) h = rw h.0 refl
is_text-comma (d ∷ s) t [] h = refl
is_text-comma (d ∷ s) t (c ∷ w) h = ground (arith, is_text-comma s t w h.1)

comma_not_word : (s t : Text) → has_text (s ++ b',' ∷ t) (true_text ∷ false_values) ≡ false
comma_not_word s t =
    rw
      (
        is_text-comma s t true_text (ground arith),
        is_text-comma s t [] tt,
        is_text-comma s t false_text (ground arith),
        is_text-comma s t (b'0' ∷ []) (ground arith),
        is_text-comma s t (b'n' ∷ b'o' ∷ []) (ground arith),
        is_text-comma s t (b'o' ∷ b'f' ∷ b'f' ∷ []) (ground arith),
      )
      refl

join_items_not_word :
    (t : Text) (ts : List Text)
    → All IsName (t ∷ ts)
    → has_text (lower (join_items (t ∷ ts))) (true_text ∷ false_values) ≡ false
join_items_not_word t [] h = h.0.2
join_items_not_word t (u ∷ ts) h =
    rw (lower-append t (b',' ∷ join_items (u ∷ ts)))
      (comma_not_word (lower t) (lower (join_items (u ∷ ts))))

or_false_both : (a b : Bool) → (a || b) ≡ false → (a ≡ false) × (b ≡ false)
or_false_both true b h = absurd cc
or_false_both false b h = (refl, h)

or_false-join_items :
    (t : Text) (ts : List Text)
    → All IsName (t ∷ ts)
    → or_false (some (join_items (t ∷ ts))) ≡ join_items (t ∷ ts)
or_false-join_items [] ts h = absurd cc
or_false-join_items (c ∷ t) [] h = refl
or_false-join_items (c ∷ t) (u ∷ ts) h = refl

abbrev listed_policy : List Text → Option Text → CloudForwardingPolicy
listed_policy ts filter = record {
  enabled = true;
  allowlist = ts;
  block_config_commands = is_text (lower (strip_space (or_false filter))) true_text;
}

-- The list of at least one name is what the parser finds in the setting that joins it.
parse_policy-join_items :
    (t : Text) (ts : List Text) (filter : Option Text)
    → All IsName (t ∷ ts)
    → parse_policy (some (join_items (t ∷ ts))) filter ≡ listed_policy (t ∷ ts) filter
unfolding parse_policy
parse_policy-join_items t ts filter h =
    let raw = join_items (t ∷ ts) in
    let (not_true, not_false) =
      or_false_both (is_text (lower raw) true_text) (has_text (lower raw) false_values)
        (join_items_not_word t ts h) in
    rw
      (
        or_false-join_items t ts h,
        strip_space-IsDense raw (join_items-IsDense (t ∷ ts) h),
        not_true,
        not_false,
        split_items-join_items t ts h,
      )
      refl

and_both : (a b : Bool) → (a && b) ≡ true → (a ≡ true) × (b ≡ true)
and_both true b h = (refl, h)
and_both false b h = absurd cc

is_text→≡ : (s t : Text) → is_text s t ≡ true → s ≡ t
is_text→≡ [] [] h = refl
is_text→≡ [] (d ∷ t) h = absurd cc
is_text→≡ (c ∷ s) [] h = absurd cc
is_text→≡ (c ∷ s) (d ∷ t) h =
    let (same, rest) = and_both (c == d) (is_text s t) h in
    rw ((==_iff c d).0 same, is_text→≡ s t rest) refl

or_dup : (a b : Bool) → (a || (a || b)) ≡ (a || b)
or_dup true b = refl
or_dup false b = refl

or_swap : (a b c : Bool) → (a || (b || c)) ≡ (b || (a || c))
or_swap true true c = refl
or_swap true false c = refl
or_swap false b c = refl

has_text-insert_sorted :
    (d t : Text) (ts : List Text) → has_text d (insert_sorted t ts) ≡ has_text d (t ∷ ts)
has_text-insert_sorted d t [] = refl
has_text-insert_sorted d t (u ∷ ts) =
    if_splits (λ (v : List Text). has_text d v ≡ has_text d (t ∷ u ∷ ts)) (is_text t u)
      (λ e. rw (is_text→≡ t u e) (sym (or_dup (is_text d u) (has_text d ts))))
      (λ ne.
        if_keeps (λ (v : List Text). has_text d v ≡ has_text d (t ∷ u ∷ ts)) (is_before t u) refl
          (rw (has_text-insert_sorted d t ts)
            (or_swap (is_text d u) (is_text d t) (has_text d ts))))

has_text-sorted_set : (d : Text) (ts : List Text) → has_text d (sorted_set ts) ≡ has_text d ts
has_text-sorted_set d [] = refl
has_text-sorted_set d (t ∷ ts) =
    has_text-insert_sorted d t (sorted_set ts) ∙ rw (has_text-sorted_set d ts) refl

insert_sorted-IsName :
    (t : Text) (ts : List Text) → IsName t → All IsName ts → All IsName (insert_sorted t ts)
insert_sorted-IsName t [] h hs = (h, tt)
insert_sorted-IsName t (u ∷ ts) h hs =
    if_keeps (All IsName) (is_text t u) hs
      (if_keeps (All IsName) (is_before t u) (h, hs) (hs.0, insert_sorted-IsName t ts h hs.1))

sorted_set-IsName : (ts : List Text) → All IsName ts → All IsName (sorted_set ts)
sorted_set-IsName [] h = tt
sorted_set-IsName (t ∷ ts) h = insert_sorted-IsName t (sorted_set ts) h.0 (sorted_set-IsName ts h.1)

-- Inserting leaves at least one item.
insert_sorted_some :
    (t : Text) (ts : List Text) → (u : Text) × (us : List Text) × (insert_sorted t ts ≡ u ∷ us)
insert_sorted_some t [] = (t, [], refl)
insert_sorted_some t (u ∷ ts) =
    if_keeps (λ (v : List Text). (w : Text) × (us : List Text) × (v ≡ w ∷ us)) (is_text t u)
      (u, ts, refl)
      (if_keeps (λ (v : List Text). (w : Text) × (us : List Text) × (v ≡ w ∷ us)) (is_before t u)
        (t, u ∷ ts, refl) (u, insert_sorted t ts, refl))

current_value-listed_policy :
    (t : Text) (ts : List Text) (filter : Option Text)
    → All IsName (t ∷ ts)
    → current_value (listed_policy (t ∷ ts) filter) (join_items (t ∷ ts))
      ≡ join_items (sorted_set (t ∷ ts))
current_value-listed_policy t ts filter h =
    rw
      ((or_false_both (is_text (lower (join_items (t ∷ ts))) true_text) _
        (join_items_not_word t ts h)).0)
      refl

-- Where the cloud setting is a comma-separated list of serial numbers, letters and digits none of
-- which is one of the words for true and false, a device is allowed exactly if its serial number
-- stands in the list, whatever the config filter; the list passes through a set, sorting and a
-- second parse.
pub allows_device-current_cloud_policy :
    (t : Text) (ts : List Text) (filter : Option Text) (device_id : Text)
    → All IsName (t ∷ ts)
    → allows_device (current_cloud_policy (some (join_items (t ∷ ts))) filter) device_id
      ≡ has_text device_id (t ∷ ts)
unfolding current_cloud_policy
allows_device-current_cloud_policy t ts filter device_id h =
    let raw = join_items (t ∷ ts) in
    let (u, us, e) = insert_sorted_some t (sorted_set ts) in
    let named : All IsName (u ∷ us) = subst (All IsName) e (sorted_set-IsName (t ∷ ts) h) in
    rw
      (
        strip_space-IsDense raw (join_items-IsDense (t ∷ ts) h),
        parse_policy-join_items t ts (some (lower (env_value filter))) h,
        current_value-listed_policy t ts (some (lower (env_value filter))) h,
        e,
        parse_policy-join_items u us (some (lower (env_value filter))) named,
      )
      (ap (has_text device_id) (sym e) ∙ has_text-sorted_set device_id (t ∷ ts))
