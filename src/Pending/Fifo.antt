-- ===== src/Pending/Fifo.antt =====
-- The waiting writes as a queue: which write an acknowledgement is taken for, and what a refused
-- packet leaves behind.
use gro_bro.Prelude.{
  ℕ, suc, ◌+◌, ◌≤◌, ◌<◌, ◌≡◌, refl, sym, ap, ◌∙◌, inl, inr, true, false, Option, none, some, List,
  [], ◌∷◌, ◌++◌, append-nil, append_assoc, arith, if_splits, lt→leb_false, if_same, length,
  length-append,
}
use gro_bro.Pending.{
  max_pending_config_writes, new, listed, nonempty, tracked, reserve, drop_identity, rolled_back,
  settle, acknowledge, run, Reservation, Pending, Event,
}
use gro_bro.Pending.Bounds.{IsFresh, IsListed, run-Inv, Inv}

abbrev pub registers : List Reservation → List ℕ
registers [] = []
registers (w ∷ ws) = w.register_no ∷ registers ws

-- Writes that MQTT takes, one after the other.
unfoldable pub write_all : List ℕ → Pending → Pending
write_all [] s = s
write_all (r ∷ rs) s = write_all rs (reserve r s).0

-- Acknowledgements with a register number that the device has no name for; what they are taken for.
unfoldable pub acknowledge_all : List ℕ → Pending → List ℕ
acknowledge_all [] s = []
acknowledge_all (r ∷ rs) s = let (t, taken) = acknowledge false r s in taken ∷ acknowledge_all rs t

abbrev live : List Reservation → ℕ → Pending
live [] n = record { writes = none; disabled = false; stopped = false; next = n }
live (w ∷ ws) n = record { writes = some (w ∷ ws); disabled = false; stopped = false; next = n }

-- A queue of writes that is tracked, with room for more.
reserve-live :
    (r n : ℕ) (ws : List Reservation)
    → length ws < max_pending_config_writes
    → (reserve r (live ws n)).0 ≡ live (ws ++ record { identity = n; register_no = r } ∷ []) (n + 1)
unfolding reserve
reserve-live r n [] h = refl
reserve-live r n (w ∷ ws) h = rw (lt→leb_false max_pending_config_writes (length (w ∷ ws)) h)

registers-append :
    (ws : List Reservation) (w : Reservation)
    → registers (ws ++ w ∷ []) ≡ registers ws ++ w.register_no ∷ []
registers-append [] w = refl
registers-append (x ∷ ws) w = ap (λ l. x.register_no ∷ l) (registers-append ws w)

write_all-live :
    (rs : List ℕ) (ws : List Reservation) (n : ℕ)
    → length ws + length rs ≤ max_pending_config_writes
    → (vs : List Reservation) × (m : ℕ) × (write_all rs (live ws n) ≡ live vs m)
      × (registers vs ≡ registers ws ++ rs)
unfolding write_all
write_all-live [] ws n h = (ws, n, refl, sym (append-nil (registers ws)))
write_all-live (r ∷ rs) ws n h =
    let w : Reservation = record { identity = n; register_no = r } in
    let (vs, m, same, named) =
      write_all-live rs (ws ++ w ∷ []) (n + 1) (omega (arith, length-append ws (w ∷ []))) in
    (
      vs,
      m,
      rw (reserve-live r n ws (omega arith)) same,
      named ∙ ap (λ l. l ++ rs) (registers-append ws w) ∙ append_assoc (registers ws) (r ∷ []) rs,
    )

acknowledge_all-live :
    (acks : List ℕ) (ws : List Reservation) (n : ℕ)
    → length acks ≡ length ws
    → acknowledge_all acks (live ws n) ≡ registers ws
unfolding acknowledge_all acknowledge
acknowledge_all-live [] [] n e = refl
acknowledge_all-live (a ∷ acks) [] n e = absurd (omega arith)
acknowledge_all-live [] (w ∷ ws) n e = absurd (omega arith)
acknowledge_all-live (a ∷ acks) (w ∷ []) n e =
    ap (λ l. w.register_no ∷ l) (acknowledge_all-live acks [] n (omega arith))
acknowledge_all-live (a ∷ acks) (w ∷ v ∷ ws) n e =
    ap (λ l. w.register_no ∷ l) (acknowledge_all-live acks (v ∷ ws) n (omega arith))

length-registers : (ws : List Reservation) → length (registers ws) ≡ length ws
length-registers [] = refl
length-registers (w ∷ ws) = ap suc (length-registers ws)

-- At most 128 writes that are taken, each followed in the end by an acknowledgement that names no
-- register of the device, are acknowledged in the order in which they were sent.
pub acknowledge_all-write_all :
    (rs acks : List ℕ)
    → length rs ≤ max_pending_config_writes
    → length acks ≡ length rs
    → acknowledge_all acks (write_all rs new) ≡ rs
acknowledge_all-write_all rs acks h e =
    let (vs, m, same, named) = write_all-live rs [] 0 (omega arith) in
    rw same
      (acknowledge_all-live acks vs m (e ∙ ap length (sym named) ∙ length-registers vs) ∙ named)

drop_identity-append :
    (ws : List Reservation) (w : Reservation)
    → IsFresh w.identity ws
    → drop_identity w.identity (ws ++ w ∷ []) ≡ ws
drop_identity-append [] w h = if_same (λ (v : List Reservation). v ≡ []) w.identity _ refl
drop_identity-append (x ∷ ws) w h = ground (arith, drop_identity-append ws w h.1)

nonempty-listed : (o : Option (List Reservation)) → IsListed o → nonempty (listed o) ≡ o
nonempty-listed none h = refl
nonempty-listed (some []) h = absurd h
nonempty-listed (some (w ∷ ws)) h = refl

settle-tracked :
    (r : ℕ) (s : Pending)
    → Inv s
    → length (listed s.writes) < max_pending_config_writes
    → rolled_back s.next (tracked r s).0.writes ≡ s.writes
settle-tracked r s h room =
    let w : Reservation = record { identity = s.next; register_no = r } in
    rw (lt→leb_false max_pending_config_writes (length (listed s.writes)) room) (
      ap nonempty (drop_identity-append (listed s.writes) w h.fresh)
      ∙ nonempty-listed s.writes h.listed_only_if_some)

settle-disabled : (s : Pending) → Inv s → s.disabled ≡ true → rolled_back s.next s.writes ≡ s.writes
settle-disabled s h off = elim h.untracked [
  | inl on ↦ let no : true ≡ false = sym off ∙ on in cc
  | inr void ↦ rw void refl
]

settle-reserve_from :
    (r : ℕ) (s : Pending)
    → Inv s
    → s.stopped ≡ false
    → length (listed s.writes) < max_pending_config_writes
    → (settle s.next false (reserve r s).0).writes ≡ s.writes
unfolding settle reserve
settle-reserve_from r s h on room =
    let same = λ (d : Pending × Option ℕ). rolled_back s.next d.0.writes ≡ s.writes in
    if_splits same s.stopped (λ off. let no : true ≡ false = sym off ∙ on in cc)
      (λ e. if_splits same s.disabled (settle-disabled s h) (λ e'. settle-tracked r s h room))

-- After any history in which the client is not stopped and fewer than 128 writes wait, a write whose
-- packet MQTT refuses leaves the waiting writes as they were before it, where nothing comes between
-- its two halves.
pub settle-reserve :
    (es : List Event) (r : ℕ)
    → (run new es).stopped ≡ false
    → length (listed (run new es).writes) < max_pending_config_writes
    → (settle (run new es).next false (reserve r (run new es)).0).writes ≡ (run new es).writes
settle-reserve es r on room = settle-reserve_from r (run new es) (run-Inv es) on room
