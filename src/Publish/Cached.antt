-- ===== src/Publish/Cached.antt =====
-- The cache of `_register_rules`: it never answers with the rules of another object, and never has more
-- than 32 entries.
use gro_bro.Prelude.{
  ℕ, ◌≤◌, ◌<◌, ◌≡◌, refl, sym, ap, subst, ◌∙◌, inl, inr, true, Option, none, some, List, [], ◌∷◌,
  arith, ltb, ◌==◌, ltb_false→le, ==_iff, Bool-cases, if_keeps, if_splits, length, All,
  length-append, All-append,
}
use gro_bro.Dicts.{TextDict}
use gro_bro.Publish.Rules.{
  no_rules, rules_of, find_entry, drop_entry, at_end_of, evict, store, on_cached, register_rules,
  KnownRegister, Rules, CacheEntry,
}

length-evict : (cache : List CacheEntry) → length (evict cache) ≤ 32
length-evict [] = omega arith
length-evict (e ∷ cache) =
    if_splits (λ c. length c ≤ 32) (ltb 32 (length (e ∷ cache))) (λ h. length-evict cache)
      (λ h. ltb_false→le 32 (length (e ∷ cache)) h)

length-drop_entry_le :
    (address : ℕ) (cache : List CacheEntry) → length (drop_entry address cache) ≤ length cache
length-drop_entry_le address [] = omega arith
length-drop_entry_le address (e ∷ cache) =
    if_keeps (λ c. length c ≤ length (e ∷ cache)) (address == e.address)
      (omega (arith, length-drop_entry_le address cache))
      (omega (arith, length-drop_entry_le address cache))

-- An entry that is found leaves the list, when it moves to the end.
length-drop_entry :
    (address : ℕ) (cache : List CacheEntry) (e : CacheEntry)
    → find_entry address cache ≡ some e
    → (length (drop_entry e.address cache) < length cache)
length-drop_entry address [] e h = cc
length-drop_entry address (f ∷ cache) e h = elim (Bool-cases (address == f.address)) [
  | inl here ↦
      let same : some f ≡ some e = rw here at h in
      let eq : f ≡ e = ground arith in
      let le = length-drop_entry_le e.address cache in
      let own : (e.address == f.address) ≡ true =
        (==_iff e.address f.address).1 (ap (λ g. g.address) (sym eq)) in
      rw own (omega (arith, le))
  | inr other ↦
      let less = length-drop_entry address cache e (rw other at h) in
      if_keeps (λ c. length c < length (f ∷ cache)) (e.address == f.address) (omega (arith, less))
        (omega (arith, less))
]

module _ (address_of : ℕ → ℕ) (registers_of : ℕ → TextDict KnownRegister) where
  abbrev IsOwn : CacheEntry → Type 0
  IsOwn e = e.rules ≡ rules_of (registers_of e.object)

  abbrev Inv : List CacheEntry → Type 0
  Inv cache = All IsOwn cache × (length cache ≤ 32)

  find_entry-IsOwn :
      (address : ℕ) (cache : List CacheEntry) (e : CacheEntry)
      → All IsOwn cache
      → find_entry address cache ≡ some e
      → IsOwn e
  find_entry-IsOwn address [] e h found = cc
  find_entry-IsOwn address (f ∷ cache) e h found = elim (Bool-cases (address == f.address)) [
    | inl here ↦
        let same : some f ≡ some e = rw here at found in
        let eq : f ≡ e = ground arith in subst IsOwn eq h.0
    | inr other ↦ find_entry-IsOwn address cache e h.1 (rw other at found)
  ]

  drop_entry-IsOwn :
      (address : ℕ) (cache : List CacheEntry)
      → All IsOwn cache
      → All IsOwn (drop_entry address cache)
  drop_entry-IsOwn address [] h = tt
  drop_entry-IsOwn address (e ∷ cache) h =
      if_keeps (All IsOwn) (address == e.address) (drop_entry-IsOwn address cache h.1)
        (h.0, drop_entry-IsOwn address cache h.1)

  at_end_of-IsOwn :
      (cache : List CacheEntry) (e : CacheEntry)
      → All IsOwn cache
      → IsOwn e
      → All IsOwn (at_end_of cache e)
  at_end_of-IsOwn cache e h own =
      All-append IsOwn (drop_entry e.address cache) (e ∷ []) (drop_entry-IsOwn e.address cache h)
        (own, tt)

  evict-IsOwn : (cache : List CacheEntry) → All IsOwn cache → All IsOwn (evict cache)
  evict-IsOwn [] h = tt
  evict-IsOwn (e ∷ cache) h =
      if_keeps (All IsOwn) (ltb 32 (length (e ∷ cache))) (evict-IsOwn cache h.1) h

  full :
      (cache : List CacheEntry) (e : CacheEntry)
      → length (drop_entry e.address cache) < length cache
      → length cache ≤ 32
      → length (at_end_of cache e) ≤ 32
  full cache e less h = omega (arith, length-append (drop_entry e.address cache) (e ∷ []), less, h)

  -- What a call answers without a cache.
  abbrev pub fresh_rules : Option ℕ → Rules
  fresh_rules none = no_rules
  fresh_rules (some object) = rules_of (registers_of object)

  abbrev Good : Option ℕ → Rules × List CacheEntry → Type 0
  Good o r = (r.0 ≡ fresh_rules o) × Inv r.1

  store-Good :
      (object : ℕ) (cache : List CacheEntry)
      → All IsOwn cache
      → Good (some object) (store address_of registers_of object cache)
  store-Good object cache h =
      let e : CacheEntry = record {
        address = address_of object;
        object = object;
        rules = rules_of (registers_of object);
      } in
      (
        refl,
        (
          evict-IsOwn (at_end_of cache e) (at_end_of-IsOwn cache e h refl),
          length-evict (at_end_of cache e),
        ),
      )

  on_cached-Good :
      (object : ℕ) (cache : List CacheEntry) (o : Option CacheEntry)
      → find_entry (address_of object) cache ≡ o
      → Inv cache
      → Good (some object) (on_cached address_of registers_of object cache o)
  on_cached-Good object cache none e h = store-Good object cache h.0
  on_cached-Good object cache (some f) e h =
      let own = find_entry-IsOwn (address_of object) cache f h.0 e in
      if_splits {A = Rules × List CacheEntry} (Good (some object)) (f.object == object)
        (λ same. (
          own ∙ ap (λ i. rules_of (registers_of i)) ((==_iff f.object object).0 same),
          (
            at_end_of-IsOwn cache f h.0 own,
            full cache f (length-drop_entry (address_of object) cache f e) h.1,
          ),
        ))
        (λ other. store-Good object cache h.0)

  register_rules-Good :
      (o : Option ℕ) (cache : List CacheEntry)
      → Inv cache
      → Good o (register_rules address_of registers_of o cache)
  unfolding register_rules
  register_rules-Good none cache h = (refl, h)
  register_rules-Good (some object) cache h =
      on_cached-Good object cache (find_entry (address_of object) cache) refl h

  abbrev pub register_calls : List (Option ℕ) → List CacheEntry → List CacheEntry
  register_calls [] cache = cache
  register_calls (o ∷ calls) cache =
      register_calls calls (register_rules address_of registers_of o cache).1

  register_calls-Inv :
      (calls : List (Option ℕ)) (cache : List CacheEntry)
      → Inv cache
      → Inv (register_calls calls cache)
  register_calls-Inv [] cache h = h
  register_calls-Inv (o ∷ calls) cache h =
      register_calls-Inv calls _ (register_rules-Good o cache h).1

  -- After any calls, for objects at any addresses, two of which may be the same, a call answers what it
  -- would without the cache, and leaves at most 32 entries.
  pub register_rules-fresh_rules :
      (calls : List (Option ℕ)) (o : Option ℕ)
      → let result = register_rules address_of registers_of o (register_calls calls []) in
        (result.0 ≡ fresh_rules o) × (length result.1 ≤ 32)
  register_rules-fresh_rules calls o =
      let good =
        register_rules-Good o (register_calls calls [])
          (register_calls-Inv calls [] (tt, omega arith)) in
      (good.0, good.1.1)
