-- ===== src/Battery/Written.antt =====
-- The file of the automatic assignments behind a packet whose read and write succeed.
use gro_bro.Prelude.{
  ℕ, ◌≡◌, refl, sym, subst, true, false, not, ◌&&◌, ◌||◌, Option, none, some, List, arith, ◌==◌,
  if_splits, length, All,
}
use gro_bro.Bytes.{Text}
use gro_bro.Dicts.{TextDict, get_item, set_item, IsDict}
use gro_bro.Register.{ℤ, pos}
use gro_bro.Battery.Files.{Positions, load_all_positions, Reading, Call, returned}
use gro_bro.Battery.Serials.{is_plausible_serial}
use gro_bro.Battery.Persist.{
  assign_serials, mapping_at, has_none, assign, position_maps, on_maps, opened, packet, packets,
  Packet, Persist,
}
use gro_bro.Battery.Assigned.{ArePlausible}
use gro_bro.Battery.InStep.{AreSame, InStep, packet-InStep, packets-InStep, unread, unread-InStep}

module _ (J : Type 0) (as_dict : J → Option (TextDict J)) (to_int : J → Option ℤ)
    (to_str : J → Text) (read_dict : (j : J) (d : TextDict J) → as_dict j ≡ some d → IsDict d)
    (of_dict : TextDict J → J) (of_int : ℕ → J)
    (dump_dict : (d : TextDict J)
      → IsDict d
      → (d' : TextDict J) × (as_dict (of_dict d) ≡ some d')
        × IsDict d'
        × ((k : Text) → get_item k d' ≡ get_item k d))
    (dump_int : (n : ℕ) → to_int (of_int n) ≡ some (pos n)) where
  abbrev State : Type 0
  State = Persist J as_dict to_int to_str of_dict of_int

  abbrev load : Reading J → Call (TextDict Positions)
  load = load_all_positions J as_dict to_int to_str true

  abbrev InStepOf : TextDict Positions → State → Type 0
  InStepOf = InStep J as_dict to_int to_str read_dict of_dict of_int dump_dict dump_int

  abbrev start : Reading J → State
  start = unread J as_dict to_int to_str read_dict of_dict of_int dump_dict dump_int

  abbrev after_packets : List Packet → State → State
  after_packets = packets J as_dict to_int to_str of_dict of_int

  -- The maps are known, and no write is due.
  abbrev IsWritten : State → Type 0
  IsWritten s = (maps : TextDict Positions) × (s.maps ≡ some maps) × (s.dirty ≡ false)

  assign-IsWritten :
      (p : Packet) (maps : TextDict Positions) (s : State)
      → p.use_stable_auto ≡ true
      → p.can_write ≡ true
      → IsWritten (assign J as_dict to_int to_str of_dict of_int p maps s)
  unfolding assign
  assign-IsWritten p maps s auto writes =
      let mapping = mapping_at p.device_id maps in
      let more = assign_serials p.current mapping in
      let maps' = set_item p.device_id more maps in
      if_splits {A = State} IsWritten (not p.use_stable_auto) (λ e. absurd (ground arith))
        (λ e.
          if_splits {A = State} IsWritten (not (length more == length mapping) || s.dirty)
            (λ f. (maps', refl, rw writes refl)) (λ f. (maps', refl, ground arith)))

  on_maps-IsWritten :
      (p : Packet) (maps : TextDict Positions) (s : State)
      → p.use_stable_auto ≡ true
      → has_none p.current ≡ false
      → p.can_write ≡ true
      → IsWritten (on_maps J as_dict to_int to_str of_dict of_int p (returned maps) s)
  on_maps-IsWritten p maps s auto packs writes =
      let read : State = record {
        maps = some maps;
        dirty = s.dirty;
        read_failed = false;
        file = s.file;
      } in
      if_splits {A = State} IsWritten (has_none p.current && not p.has_manual)
        (λ e. absurd (ground arith)) (λ e. assign-IsWritten p maps read auto writes)

  position_maps-returned :
      (o : Option (TextDict Positions)) (file : Reading J) (view : TextDict Positions)
      → load file ≡ returned view
      → (maps : TextDict Positions) × (position_maps J as_dict to_int to_str of_dict of_int o file
          ≡ returned maps)
  position_maps-returned none file view l = (view, l)
  position_maps-returned (some maps) file view l = (maps, refl)

  packet-IsWritten :
      (p : Packet) (view : TextDict Positions) (s : State)
      → p.use_stable_auto ≡ true
      → has_none p.current ≡ false
      → p.can_read ≡ true
      → p.can_write ≡ true
      → load s.file ≡ returned view
      → IsWritten (packet J as_dict to_int to_str of_dict of_int p s)
  unfolding packet
  packet-IsWritten p view s auto packs reads writes l =
      let readable : load (opened J as_dict to_int to_str of_dict of_int p.can_read s.file)
          ≡ returned view =
        rw reads l in
      let (maps, found) =
        position_maps-returned s.maps
          (opened J as_dict to_int to_str of_dict of_int p.can_read s.file) view readable in
      subst
        (λ (c : Call (TextDict Positions)).
          IsWritten (on_maps J as_dict to_int to_str of_dict of_int p c s))
        (sym found) (on_maps-IsWritten p maps s auto packs writes)

  in_file :
      (before maps : TextDict Positions) (s : State)
      → s.maps ≡ some maps
      → s.dirty ≡ false
      → InStepOf before s
      → (after : TextDict Positions) × (load s.file ≡ returned after) × AreSame maps after
  in_file before maps s known clean (view, l, covers, agrees) =
      (view, l, (rw known at agrees).2 clean)

  -- A file is read, whatever JSON it holds, and the serial numbers that the loader keeps of it are
  -- plausible. Whatever packets with plausible serial numbers came then, and whichever reads and writes
  -- failed: behind one more packet that reports a pack, with automatic slots, and whose read and write
  -- succeed, the client has mappings, and the file is read again as the same slot, or none, for each
  -- serial number of each device.
  pub packet-written :
      (ps : List Packet) (p : Packet) (file : Reading J) (before : TextDict Positions)
      → load file ≡ returned before
      → ((i k : Text) (s : ℕ)
          → get_item k (mapping_at i before) ≡ some s
          → is_plausible_serial k ≡ true)
      → All (λ q. ArePlausible q.current) ps
      → ArePlausible p.current
      → p.use_stable_auto ≡ true
      → has_none p.current ≡ false
      → p.can_read ≡ true
      → p.can_write ≡ true
      → let s = packet J as_dict to_int to_str of_dict of_int p (after_packets ps (start file)) in
        (maps : TextDict Positions) × (after : TextDict Positions) × (s.maps ≡ some maps)
        × (load s.file ≡ returned after)
        × AreSame maps after
  packet-written ps p file before l plausible packs mine auto reports reads writes =
      let s = after_packets ps (start file) in
      let stays =
        packets-InStep J as_dict to_int to_str read_dict of_dict of_int dump_dict dump_int ps before
          (start file) packs
          (unread-InStep J as_dict to_int to_str read_dict of_dict of_int dump_dict dump_int file
            before l plausible) in
      let (maps, known, clean) = packet-IsWritten p stays.0 s auto reports reads writes stays.1 in
      let (after, read, same) =
        in_file before maps (packet J as_dict to_int to_str of_dict of_int p s) known clean (
          packet-InStep J as_dict to_int to_str read_dict of_dict of_int dump_dict dump_int p before
            s mine stays) in
      (maps, after, known, read, same)
