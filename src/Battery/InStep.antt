-- ===== src/Battery/InStep.antt =====
-- The automatic assignments in memory and in their file, over all packets, reads and writes that fail.
use gro_bro.Prelude.{
  ℕ, ◌≡◌, refl, sym, ap, subst, ◌∙◌, inl, inr, Bool, true, false, not, ◌&&◌, ◌||◌, Option, none,
  some, List, [], ◌∷◌, arith, ◌==◌, Bool-cases, if_keeps, if_splits, length, All,
}
use gro_bro.Bytes.{Text}
use gro_bro.Dicts.{is_text_iff, TextDict, get_item, set_item, IsDict, set_item-IsDict}
use gro_bro.Register.{ℤ, pos}
use gro_bro.Battery.Files.{Positions, load_all_positions, Reading, Call, returned}
use gro_bro.Battery.Serials.{is_plausible_serial}
use gro_bro.Battery.Persist.{
  assign_serials, mapping_at, has_none, write, assign, with_maps, position_maps, on_maps, opened,
  packet, packets, Packet, Persist,
}
use gro_bro.Battery.Reread.{IsGood}
use gro_bro.Battery.Good.{AreGood, mapping_at-set_item}
use gro_bro.Battery.Remapped.{load-AreGood, dump_maps-load}
use gro_bro.Battery.Assigned.{
  ArePlausible, assign_serials-IsGood, assign_serials-keeps, assign_serials-same,
}
use gro_bro.Family.{is_text}

-- Each slot of `b` is in `a`, and the two have the same slots.
abbrev pub Covers : TextDict Positions → TextDict Positions → Type 0
Covers a b =
    (i k : Text) (s : ℕ)
    → get_item k (mapping_at i b) ≡ some s
    → get_item k (mapping_at i a) ≡ some s

abbrev pub AreSame : TextDict Positions → TextDict Positions → Type 0
AreSame a b = (i k : Text) → get_item k (mapping_at i a) ≡ get_item k (mapping_at i b)

set_item-AreGood :
    (i : Text) (m : Positions) (maps : TextDict Positions)
    → IsGood m
    → AreGood maps
    → AreGood (set_item i m maps)
set_item-AreGood i m maps h good = (
  set_item-IsDict i m maps good.0,
  λ k. rw (mapping_at-set_item k i m maps) (if_keeps IsGood (is_text k i) h (good.1 k)),
)

set_item-Covers :
    (i : Text) (m : Positions) (maps view : TextDict Positions)
    → ((k : Text) (s : ℕ) → get_item k (mapping_at i maps) ≡ some s → get_item k m ≡ some s)
    → Covers maps view
    → Covers (set_item i m maps) view
set_item-Covers i m maps view more h j k s e = elim (Bool-cases (is_text j i)) [
  | inl same ↦
      let eq : j ≡ i = (is_text_iff j i).0 same in
      rw (mapping_at-set_item j i m maps, same)
        (more k s (subst (λ (t : Text). get_item k (mapping_at t maps) ≡ some s) eq (h j k s e)))
  | inr other ↦ rw (mapping_at-set_item j i m maps, other) (h j k s e)
]

same_mapping :
    (k i : Text) (maps : TextDict Positions)
    → mapping_at k (set_item i (mapping_at i maps) maps) ≡ mapping_at k maps
same_mapping k i maps = elim (Bool-cases (is_text k i)) [
  | inl same ↦
      rw (mapping_at-set_item k i (mapping_at i maps) maps, same)
        (ap (λ (j : Text). mapping_at j maps) (sym ((is_text_iff k i).0 same)))
  | inr other ↦ rw (mapping_at-set_item k i (mapping_at i maps) maps, other) refl
]

module _ (J : Type 0) (as_dict : J → Option (TextDict J)) (to_int : J → Option ℤ)
    (to_str : J → Text) (read_dict : (j : J) (d : TextDict J) → as_dict j ≡ some d → IsDict d)
    (of_dict : TextDict J → J) (of_int : ℕ → J)
    (dump_dict : (d : TextDict J)
      → IsDict d
      → (d' : TextDict J) × (as_dict (of_dict d) ≡ some d')
        × IsDict d'
        × ((k : Text) → get_item k d' ≡ get_item k d))
    (dump_int : (n : ℕ) → to_int (of_int n) ≡ some (pos n)) where
  abbrev State : Type 0
  State = Persist J as_dict to_int to_str of_dict of_int

  abbrev load : Reading J → Call (TextDict Positions)
  load = load_all_positions J as_dict to_int to_str true

  -- The client has what the file is loaded as, and the same unless a write is due.
  abbrev Agrees : Bool → TextDict Positions → Option (TextDict Positions) → Type 0
  Agrees dirty view none = (dirty ≡ false) × AreGood view
  Agrees dirty view (some maps) =
      AreGood maps × Covers maps view × (dirty ≡ false → AreSame maps view)

  -- The file can be loaded, and nothing of what it was loaded as is lost.
  abbrev pub InStep : TextDict Positions → State → Type 0
  InStep before s =
      (view : TextDict Positions) × (load s.file ≡ returned view)
      × Covers view before
      × Agrees s.dirty view s.maps

  write-InStep :
      (can_write : Bool) (before maps view : TextDict Positions) (s : State)
      → load s.file ≡ returned view
      → Covers view before
      → AreGood maps
      → Covers maps view
      → InStep before (write J as_dict to_int to_str of_dict of_int can_write maps s)
  write-InStep false before maps view s l h good more = (view, l, h, (good, more, λ e. cc))
  write-InStep true before maps view s l h good more =
      let (after, read, same) =
        dump_maps-load J as_dict to_int to_str read_dict of_dict of_int dump_dict dump_int maps
          good in
      (
        after,
        read,
        λ i k n e. same i k ∙ more i k n (h i k n e),
        (good, λ i k n e. sym (same i k) ∙ e, λ e i k. sym (same i k)),
      )

  assign-InStep :
      (p : Packet) (before maps view : TextDict Positions) (s : State)
      → ArePlausible p.current
      → load s.file ≡ returned view
      → Covers view before
      → Agrees s.dirty view (some maps)
      → InStep before (assign J as_dict to_int to_str of_dict of_int p maps s)
  unfolding assign
  assign-InStep p before maps view s plausible l h agrees =
      let mapping = mapping_at p.device_id maps in
      let more = assign_serials p.current mapping in
      let good =
        set_item-AreGood p.device_id more maps
          (assign_serials-IsGood p.current mapping plausible (agrees.0.1 p.device_id)) agrees.0 in
      let covered =
        set_item-Covers p.device_id more maps view (assign_serials-keeps p.current mapping)
          agrees.1 in
      if_keeps (InStep before) (not p.use_stable_auto)
        (
          view,
          l,
          h,
          (
            set_item-AreGood p.device_id mapping maps (agrees.0.1 p.device_id) agrees.0,
            set_item-Covers p.device_id mapping maps view (λ k n e. e) agrees.1,
            λ clean i k. ap (get_item k) (same_mapping i p.device_id maps) ∙ agrees.2 clean i k,
          ),
        )
        (if_splits (InStep before) (not (length more == length mapping) || s.dirty)
          (λ e.
            write-InStep p.can_write before (set_item p.device_id more maps) view s l h good
              covered)
          (λ e.
            let same : more ≡ mapping = assign_serials-same p.current mapping (ground arith) in
            (
              view,
              l,
              h,
              (
                good,
                covered,
                λ clean i k.
                    ap (λ (m : Positions). get_item k (mapping_at i (set_item p.device_id m maps)))
                      same
                    ∙ ap (get_item k) (same_mapping i p.device_id maps)
                    ∙ agrees.2 clean i k,
              ),
            )))

  with_maps-InStep :
      (p : Packet) (before maps view : TextDict Positions) (s : State)
      → ArePlausible p.current
      → load s.file ≡ returned view
      → Covers view before
      → Agrees s.dirty view (some maps)
      → InStep before (with_maps J as_dict to_int to_str of_dict of_int p maps s)
  with_maps-InStep p before maps view s plausible l h agrees =
      if_keeps (InStep before) (has_none p.current && not p.has_manual) (view, l, h, agrees)
        (assign-InStep p before maps view
          (record { maps = some maps; dirty = s.dirty; read_failed = false; file = s.file })
          plausible l h agrees)

  on_maps-InStep :
      (p : Packet) (before view : TextDict Positions) (s : State) (can_read : Bool)
      (o : Option (TextDict Positions))
      → ArePlausible p.current
      → load s.file ≡ returned view
      → Covers view before
      → Agrees s.dirty view o
      → InStep before (
          on_maps J as_dict to_int to_str of_dict of_int p
            (position_maps J as_dict to_int to_str of_dict of_int o
              (opened J as_dict to_int to_str of_dict of_int can_read s.file))
            s)
  unfolding load_all_positions
  on_maps-InStep p before view s can_read (some maps) plausible l h agrees =
      with_maps-InStep p before maps view s plausible l h agrees
  on_maps-InStep p before view s true none plausible l h agrees =
      subst
        (λ (c : Call (TextDict Positions)).
          InStep before (on_maps J as_dict to_int to_str of_dict of_int p c s))
        (sym l)
        (with_maps-InStep p before view view s plausible l h
          (agrees.1, λ i k n e. e, λ clean i k. refl))
  on_maps-InStep p before view s false none plausible l h agrees = (view, l, h, agrees)

  pub packet-InStep :
      (p : Packet) (before : TextDict Positions) (s : State)
      → ArePlausible p.current
      → InStep before s
      → InStep before (packet J as_dict to_int to_str of_dict of_int p s)
  unfolding packet
  packet-InStep p before s plausible (view, l, h, agrees) =
      on_maps-InStep p before view s p.can_read s.maps plausible l h agrees

  pub packets-InStep :
      (ps : List Packet) (before : TextDict Positions) (s : State)
      → All (λ p. ArePlausible p.current) ps
      → InStep before s
      → InStep before (packets J as_dict to_int to_str of_dict of_int ps s)
  packets-InStep [] before s plausible h = h
  packets-InStep (p ∷ ps) before s plausible h =
      packets-InStep ps before _ plausible.1 (packet-InStep p before s plausible.0 h)

  -- The client as it starts, with a file that it has not read.
  abbrev pub unread : Reading J → State
  unread file = record { maps = none; dirty = false; read_failed = false; file = file }

  pub unread-InStep :
      (file : Reading J) (before : TextDict Positions)
      → load file ≡ returned before
      → ((i k : Text) (s : ℕ)
          → get_item k (mapping_at i before) ≡ some s
          → is_plausible_serial k ≡ true)
      → InStep before (unread file)
  unread-InStep file before l plausible = (
    before,
    l,
    λ i k n e. e,
    (refl, load-AreGood J as_dict to_int to_str read_dict file before l plausible),
  )

  -- A file is read, whatever JSON it holds, and the serial numbers that the loader keeps of it are
  -- plausible. Whatever packets with plausible serial numbers come then, and whichever reads and writes
  -- fail: the file is read again, and a slot that the loader had for a pack of a device is the one that
  -- it then has for it.
  pub packets-lookup :
      (ps : List Packet) (file : Reading J) (before : TextDict Positions) (device_id serial : Text)
      (slot : ℕ)
      → load file ≡ returned before
      → ((i k : Text) (s : ℕ)
          → get_item k (mapping_at i before) ≡ some s
          → is_plausible_serial k ≡ true)
      → All (λ p. ArePlausible p.current) ps
      → get_item serial (mapping_at device_id before) ≡ some slot
      → (after : TextDict Positions) × (load
            (packets J as_dict to_int to_str of_dict of_int ps (unread file)).file
          ≡ returned after)
        × (get_item serial (mapping_at device_id after) ≡ some slot)
  packets-lookup ps file before device_id serial slot l plausible packs e =
      let (after, read, covers, agrees) =
        packets-InStep ps before (unread file) packs (unread-InStep file before l plausible) in
      (after, read, covers device_id serial slot e)
