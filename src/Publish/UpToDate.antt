-- ===== src/Publish/UpToDate.antt =====
-- Home Assistant has the state of each device that was published or found unchanged last.
use gro_bro.Prelude.{
  ◌≡◌, refl, sym, ap, ◌∙◌, ◌⊎◌, inl, inr, Bool, true, Option, none, some, List, [], ◌∷◌, Bool-cases,
  if_keeps, if_yes, if_none,
}
use gro_bro.Bytes.{Text}
use gro_bro.Dicts.{is_text_iff, TextDict, get_item, set_item, get_item-set_item}
use gro_bro.Publish.States.{
  is_same, is_same_text, publish_state, publish_smart_meter, no_states, step, steps, States,
  StateEvent, state, meter, reconnect,
}
use gro_bro.Family.{is_text}
use gro_bro.Publish.Shown.{mapped}

-- What a cache has, Home Assistant was sent.
abbrev pub Follows {ℓ} : {V : Type ℓ} → (V → Text) → TextDict V → TextDict Text → Type ℓ
Follows {V = V} f cache sent =
    (d : Text) (v : V) → get_item d cache ≡ some v → get_item d sent ≡ some (f v)

set_item-Follows {ℓ} :
    {V : Type ℓ} (f : V → Text) (k : Text) (w : V) (cache : TextDict V) (sent : TextDict Text)
    → Follows f cache sent
    → Follows f (set_item k w cache) (set_item k (f w) sent)
set_item-Follows f k w cache sent h d v e = elim (Bool-cases (is_text d k)) [
  | inl here ↦
      let eq : some w ≡ some v =
        sym (get_item-set_item d k w cache ∙ if_yes (get_item d cache) here) ∙ e in
      get_item-set_item d k (f w) sent ∙ if_yes (get_item d sent) here ∙ ap (λ o. mapped f o) eq
  | inr other ↦
      get_item-set_item d k (f w) sent
      ∙ if_none (some (f w)) other
      ∙ h d v (sym (get_item-set_item d k w cache ∙ if_none (some w) other) ∙ e)
]

module _ {ℓ} (P : Type ℓ) (same : P → P → Bool) (dumps : P → Text) where
  abbrev own_text : Text → Text
  own_text t = t

  abbrev pub IsShown : States P same dumps → Type ℓ
  IsShown s =
      Follows dumps s.last_state_payload s.shown
      × Follows own_text s.state_publish_cache s.shown
      × Follows own_text s.smart_meter_state_cache s.shown_meter

  publish_state-IsShown :
      (k : Text) (p : P) (accepted : Bool) (s : States P same dumps)
      → IsShown s
      → IsShown (publish_state P same dumps k p accepted s)
  unfolding publish_state
  publish_state-IsShown k p accepted s h =
      elim (Bool-cases (is_same P same dumps p (get_item k s.last_state_payload))) [
        | inl unchanged ↦ rw unchanged h
        | inr changed ↦
            elim (Bool-cases
              (is_same_text P same dumps (dumps p) (get_item k s.state_publish_cache))) [
                | inl unchanged ↦ rw (changed, unchanged) h
                | inr new ↦
                    rw (changed, new)
                      (if_keeps IsShown accepted
                        ((
                          set_item-Follows dumps k p s.last_state_payload s.shown h.0,
                          set_item-Follows own_text k (dumps p) s.state_publish_cache s.shown h.1,
                          h.2,
                        ))
                        h)
              ]
      ]

  publish_smart_meter-IsShown :
      (k t : Text) (accepted : Bool) (s : States P same dumps)
      → IsShown s
      → IsShown (publish_smart_meter P same dumps k t accepted s)
  unfolding publish_smart_meter
  publish_smart_meter-IsShown k t accepted s h =
      if_keeps IsShown (is_same_text P same dumps t (get_item k s.smart_meter_state_cache)) h (
        if_keeps IsShown accepted
          (h.0, h.1, set_item-Follows own_text k t s.smart_meter_state_cache s.shown_meter h.2) h)

  step-IsShown :
      (e : StateEvent P same dumps) (s : States P same dumps)
      → IsShown s
      → IsShown (step P same dumps e s)
  step-IsShown (state k p accepted) s h = publish_state-IsShown k p accepted s h
  step-IsShown (meter k t accepted) s h = publish_smart_meter-IsShown k t accepted s h
  step-IsShown reconnect s h = (λ d v e. cc, λ d v e. cc, λ d v e. cc)

  pub steps-IsShown :
      (es : List (StateEvent P same dumps)) (s : States P same dumps)
      → IsShown s
      → IsShown (steps P same dumps es s)
  steps-IsShown [] s h = h
  steps-IsShown (e ∷ es) s h = steps-IsShown es _ (step-IsShown e s h)

  -- A state that stands for a payload: its own JSON, or the JSON of one that Python takes for equal.
  abbrev pub Stands : P → Option Text → Type ℓ
  Stands p o = (o ≡ some (dumps p)) ⊎ ((q : P) × (o ≡ some (dumps q)) × (same q p ≡ true))

  is_same-Stands :
      (k : Text) (p : P) (s : States P same dumps) (o : Option P)
      → IsShown s
      → get_item k s.last_state_payload ≡ o
      → is_same P same dumps p o ≡ true
      → Stands p (get_item k s.shown)
  is_same-Stands k p s none h e t = cc
  is_same-Stands k p s (some q) h e t = inr (q, h.0 k q e, t)

  is_same_text-Stands :
      (k : Text) (p : P) (s : States P same dumps) (o : Option Text)
      → IsShown s
      → get_item k s.state_publish_cache ≡ o
      → is_same_text P same dumps (dumps p) o ≡ true
      → Stands p (get_item k s.shown)
  is_same_text-Stands k p s none h e t = cc
  is_same_text-Stands k p s (some j) h e t =
      inl (h.1 k j e ∙ ap some ((is_text_iff j (dumps p)).0 t))

  -- After any publications, refused ones and reconnections: behind one more that Paho takes if it is
  -- tried, Home Assistant has the state of the payload, or of one that Python takes for equal.
  pub publish_state-Stands :
      (es : List (StateEvent P same dumps)) (k : Text) (p : P)
      → Stands p (
          get_item k
            (publish_state P same dumps k p true
              (steps P same dumps es (no_states P same dumps))).shown)
  unfolding publish_state
  publish_state-Stands es k p =
      let s = steps P same dumps es (no_states P same dumps) in
      let h : IsShown s =
        steps-IsShown es (no_states P same dumps) (λ d v e. cc, λ d v e. cc, λ d v e. cc) in
      elim (Bool-cases (is_same P same dumps p (get_item k s.last_state_payload))) [
        | inl unchanged ↦ rw unchanged (is_same-Stands k p s _ h refl unchanged)
        | inr changed ↦
            elim (Bool-cases
              (is_same_text P same dumps (dumps p) (get_item k s.state_publish_cache))) [
                | inl unchanged ↦
                    rw (changed, unchanged) (is_same_text-Stands k p s _ h refl unchanged)
                | inr new ↦
                    rw (changed, new)
                      (inl (
                        get_item-set_item k k (dumps p) s.shown
                        ∙ if_yes (get_item k s.shown) ((is_text_iff k k).1 refl)))
              ]
      ]
