-- ===== src/Pending/Bounds.antt =====
-- What holds of the waiting writes after any history of writes and acknowledgements.
use gro_bro.Prelude.{
  ℕ, ◌+◌, ◌≤◌, ◌<◌, ◌≡◌, refl, ◌⊎◌, inl, inr, Bool, true, false, Option, none, some, List, [], ◌∷◌,
  ◌++◌, arith, leb, Bool-cases, if_keeps, leb_false→lt, if_splits, length, All, length-append,
  All-append,
}
use gro_bro.Pending.{
  max_pending_config_writes, new, listed, nonempty, tracked, reserve, drop_identity, rolled_back,
  settle, is_pending, drop_register, answered, oldest, acknowledge, stop, step, run, Reservation,
  Pending, Event, reserves, settles, acknowledges, stops,
}

-- Identities are below the bound.
abbrev pub IsFresh : ℕ → List Reservation → Type 0
IsFresh n ws = All (λ w. w.identity < n) ws

abbrev pub IsListed : Option (List Reservation) → Type 0
IsListed none = Unit
IsListed (some []) = ⊥
IsListed (some (w ∷ ws)) = Unit

pub record Inv (s : Pending) : Type 0 where
  pub capped : length (listed s.writes) ≤ max_pending_config_writes
  pub listed_only_if_some : IsListed s.writes
  pub fresh : IsFresh s.next (listed s.writes)
  pub untracked : (s.disabled ≡ false) ⊎ (s.writes ≡ none)

nonempty-IsListed : (ws : List Reservation) → IsListed (nonempty ws)
nonempty-IsListed [] = tt
nonempty-IsListed (w ∷ ws) = tt

listed-nonempty : (ws : List Reservation) → listed (nonempty ws) ≡ ws
listed-nonempty [] = refl
listed-nonempty (w ∷ ws) = refl

append-IsListed : (ws : List Reservation) (w : Reservation) → IsListed (some (ws ++ w ∷ []))
append-IsListed [] w = tt
append-IsListed (x ∷ ws) w = tt

length-drop_identity : (k : ℕ) (ws : List Reservation) → length (drop_identity k ws) ≤ length ws
length-drop_identity k [] = omega arith
length-drop_identity k (w ∷ ws) = ground (arith, length-drop_identity k ws)

length-drop_register : (r : ℕ) (ws : List Reservation) → length (drop_register r ws) ≤ length ws
length-drop_register r [] = omega arith
length-drop_register r (w ∷ ws) = ground (arith, length-drop_register r ws)

drop_identity-IsFresh :
    (n k : ℕ) (ws : List Reservation) → IsFresh n ws → IsFresh n (drop_identity k ws)
drop_identity-IsFresh n k [] h = tt
drop_identity-IsFresh n k (w ∷ ws) h = ground (arith, drop_identity-IsFresh n k ws h.1)

drop_register-IsFresh :
    (n r : ℕ) (ws : List Reservation) → IsFresh n ws → IsFresh n (drop_register r ws)
drop_register-IsFresh n r [] h = tt
drop_register-IsFresh n r (w ∷ ws) h = ground (arith, drop_register-IsFresh n r ws h.1)

IsFresh-mono : (n : ℕ) (ws : List Reservation) → IsFresh n ws → IsFresh (n + 1) ws
IsFresh-mono n [] h = tt
IsFresh-mono n (w ∷ ws) h = (omega arith, IsFresh-mono n ws h.1)

-- Fewer writes than before, none of them new.
shrunk-Inv :
    (s : Pending) (ws : List Reservation)
    → Inv s
    → length ws ≤ length (listed s.writes)
    → IsFresh s.next ws
    → (s.writes ≡ none → ws ≡ [])
    → Inv (record s { writes = nonempty ws })
shrunk-Inv s ws h short fresh void = record {
  capped = rw (listed-nonempty ws) (omega (arith, h.capped));
  listed_only_if_some = nonempty-IsListed ws;
  fresh = rw (listed-nonempty ws) fresh;
  untracked = elim h.untracked [ inl on ↦ inl on | inr off ↦ inr (rw (void off) (refl)) ];
}

track-Inv :
    (r : ℕ) (s : Pending)
    → s.disabled ≡ false
    → Inv s
    → IsFresh (s.next + 1) (listed s.writes)
    → Inv (tracked r s).0
track-Inv r s on h seen =
    elim (Bool-cases (leb max_pending_config_writes (length (listed s.writes)))) [
      | inl full ↦ rw full (record {
        capped = omega arith;
        listed_only_if_some = tt;
        fresh = tt;
        untracked = inr refl;
      })
      | inr room ↦
          let w : Reservation = record { identity = s.next; register_no = r } in
          rw room (record {
            capped = omega (arith, leb_false→lt _ _ room, length-append (listed s.writes) (w ∷ []));
            listed_only_if_some = append-IsListed (listed s.writes) w;
            fresh =
                All-append (λ v. v.identity < s.next + 1) (listed s.writes) (w ∷ []) seen
                  (omega arith);
            untracked = inl on;
          })
    ]

reserve-Inv : (r : ℕ) (s : Pending) → Inv s → Inv (reserve r s).0
unfolding reserve
reserve-Inv r s h =
    let seen = IsFresh-mono s.next (listed s.writes) h.fresh in
    let kept : Inv (record s { next = s.next + 1 }) = record {
      capped = h.capped;
      listed_only_if_some = h.listed_only_if_some;
      fresh = seen;
      untracked = h.untracked;
    } in
    if_keeps (λ (d : Pending × Option ℕ). Inv d.0) s.stopped kept
      (if_splits (λ (d : Pending × Option ℕ). Inv d.0) s.disabled (λ off. kept)
        (λ on. track-Inv r s on h seen))

rolled_back-nonempty :
    (k : ℕ) (o : Option (List Reservation))
    → rolled_back k o ≡ nonempty (drop_identity k (listed o))
rolled_back-nonempty k none = refl
rolled_back-nonempty k (some ws) = refl

settle-Inv : (k : ℕ) (accepted : Bool) (s : Pending) → Inv s → Inv (settle k accepted s)
unfolding settle
settle-Inv k true s h = h
settle-Inv k false s h =
    let ws = listed s.writes in
    rw (rolled_back-nonempty k s.writes) (
      shrunk-Inv s (drop_identity k ws) h (length-drop_identity k ws)
        (drop_identity-IsFresh s.next k ws h.fresh) (λ e. rw e))

oldest_rest :
    (r n : ℕ) (ws : List Reservation)
    → IsFresh n ws
    → (length (oldest r ws).1 ≤ length ws) × IsFresh n (oldest r ws).1
oldest_rest r n [] h = (omega arith, tt)
oldest_rest r n (w ∷ ws) h = (omega arith, h.1)

acknowledge-Inv : (named : Bool) (r : ℕ) (s : Pending) → Inv s → Inv (acknowledge named r s).0
unfolding acknowledge
acknowledge-Inv true r s h =
    let ws = listed s.writes in
    shrunk-Inv s (answered r ws) h
      (if_keeps (λ v. length v ≤ length ws) (is_pending r ws) {x = drop_register r ws} {y = ws}
        (length-drop_register r ws) (omega arith))
      (if_keeps (IsFresh s.next) (is_pending r ws) (drop_register-IsFresh s.next r ws h.fresh)
        h.fresh)
      (λ e. rw e)
acknowledge-Inv false r s h =
    let ws = listed s.writes in
    let (short, fresh) = oldest_rest r s.next ws h.fresh in
    shrunk-Inv s (oldest r ws).1 h short fresh (λ e. rw e)

stop-Inv : (s : Pending) → Inv (stop s)
unfolding stop
stop-Inv s = record {
  capped = omega arith;
  listed_only_if_some = tt;
  fresh = tt;
  untracked = inr refl;
}

step-Inv : (s : Pending) (e : Event) → Inv s → Inv (step s e)
unfolding step
step-Inv s (reserves r) h = reserve-Inv r s h
step-Inv s (settles k accepted) h = settle-Inv k accepted s h
step-Inv s (acknowledges named r) h = acknowledge-Inv named r s h
step-Inv s stops h = stop-Inv s

run-Inv_from : (s : Pending) (es : List Event) → Inv s → Inv (run s es)
unfolding run
run-Inv_from s [] h = h
run-Inv_from s (e ∷ es) h = run-Inv_from (step s e) es (step-Inv s e h)

-- After any history of writes, of packets taken or refused, and of acknowledgements in between, at
-- most 128 writes wait, an entry that stands in the map is not empty, no waiting write has an
-- identity that is given out later, and none waits where tracking has been disabled.
pub run-Inv : (es : List Event) → Inv (run new es)
run-Inv es =
    run-Inv_from new es
      (record { capped = omega arith; listed_only_if_some = tt; fresh = tt; untracked = inl refl })
