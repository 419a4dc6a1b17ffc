-- ===== src/Battery/Persist.antt =====
-- The automatic assignments of grobro/ha/battery_position.py and their file: `_position_maps`, and the
-- part of `_stabilize_battery_payload_locked` that assigns, writes and retries. A file that cannot be
-- read or written is a Boolean of the packet at which it is tried.
use gro_bro.Prelude.{
  ℕ, Bool, true, false, not, ◌&&◌, ◌||◌, Option, none, some, List, [], ◌∷◌, ◌==◌, if◌then◌else◌,
  length,
}
use gro_bro.Bytes.{Text}
use gro_bro.Dicts.{TextDict, get_item, set_item}
use gro_bro.Register.{ℤ}
use gro_bro.Battery.Slots.{automatic_slot}
use gro_bro.Battery.Files.{
  Positions, load_all_positions, Reading, unreadable, loaded, Call, returned, os_error,
}
use gro_bro.Battery.Loaded.{mapping_of}

-- One packet: its device, the packs that it reports by slot, whether the device has manual choices, and
-- which file operations succeed.
pub record Packet : Type 0 where
  pub device_id : Text
  pub current : List (ℕ × Text)
  pub has_manual : Bool
  pub use_stable_auto : Bool
  pub can_read : Bool
  pub can_write : Bool

abbrev pub with_serial : Text → Positions → Option ℕ → Positions
with_serial serial mapping none = mapping
with_serial serial mapping (some logical_slot) = set_item serial logical_slot mapping

abbrev pub assign_serial : ℕ → Text → Positions → Option ℕ → Positions
assign_serial physical_slot serial mapping (some slot) = mapping
assign_serial physical_slot serial mapping none =
    with_serial serial mapping (automatic_slot physical_slot (mapping_of mapping))

-- `for physical_slot, serial in current_serials.items()`
abbrev pub assign_serials : List (ℕ × Text) → Positions → Positions
assign_serials [] mapping = mapping
assign_serials ((physical_slot, serial) ∷ current) mapping =
    assign_serials current (assign_serial physical_slot serial mapping (get_item serial mapping))

abbrev pub or_nothing_yet : Option Positions → Positions
or_nothing_yet none = []
or_nothing_yet (some mapping) = mapping

-- `all_positions.setdefault(device_id, {})`, as a value
abbrev pub mapping_at : Text → TextDict Positions → Positions
mapping_at device_id maps = or_nothing_yet (get_item device_id maps)

abbrev pub has_none : List (ℕ × Text) → Bool
has_none [] = true
has_none (e ∷ current) = false

module _ (J : Type 0) (as_dict : J → Option (TextDict J)) (to_int : J → Option ℤ)
    (to_str : J → Text) (of_dict : TextDict J → J) (of_int : ℕ → J) where
  abbrev pub dump_slots : Positions → TextDict J
  dump_slots [] = []
  dump_slots ((serial, slot) ∷ mapping) = (serial, of_int slot) ∷ dump_slots mapping

  -- `_save_all_positions`: the JSON that it writes
  abbrev pub dump_maps : TextDict Positions → TextDict J
  dump_maps [] = []
  dump_maps ((device_id, mapping) ∷ maps) =
      (device_id, of_dict (dump_slots mapping)) ∷ dump_maps maps

  -- `_battery_position_maps`, `_battery_positions_dirty` and `_battery_positions_read_failed` of the
  -- client, and the file.
  pub record Persist : Type 0 where
    pub maps : Option (TextDict Positions)
    pub dirty : Bool
    pub read_failed : Bool
    pub file : Reading J

  -- The write, or a retry later.
  abbrev pub write : Bool → TextDict Positions → Persist → Persist
  write can_write maps s = record {
    maps = some maps;
    dirty = not can_write;
    read_failed = s.read_failed;
    file = if can_write then loaded (of_dict (dump_maps maps)) else s.file;
  }

  abbrev pub keep_maps : TextDict Positions → Persist → Persist
  keep_maps maps s = record {
    maps = some maps;
    dirty = s.dirty;
    read_failed = s.read_failed;
    file = s.file;
  }

  -- `changed` is that the mapping has more entries.
  unfoldable pub assign : Packet → TextDict Positions → Persist → Persist
  assign p maps s =
      let mapping = mapping_at p.device_id maps in
      let mapping' = assign_serials p.current mapping in
      let maps' = set_item p.device_id mapping' maps in
      if not p.use_stable_auto
      then keep_maps (set_item p.device_id mapping maps) s
      else if not (length mapping' == length mapping) || s.dirty
      then write p.can_write maps' s
      else keep_maps maps' s

  -- Behind `_position_maps`: nothing more for a packet without packs and choices.
  abbrev pub with_maps : Packet → TextDict Positions → Persist → Persist
  with_maps p maps s =
      let read : Persist = record {
        maps = some maps;
        dirty = s.dirty;
        read_failed = false;
        file = s.file;
      } in
      if has_none p.current && not p.has_manual then read else assign p maps read

  abbrev pub position_maps : Option (TextDict Positions) → Reading J → Call (TextDict Positions)
  position_maps (some maps) file = returned maps
  position_maps none file = load_all_positions J as_dict to_int to_str true file

  abbrev pub on_maps : Packet → Call (TextDict Positions) → Persist → Persist
  on_maps p os_error s = record { maps = none; dirty = s.dirty; read_failed = true; file = s.file }
  on_maps p (returned maps) s = with_maps p maps s

  abbrev pub opened : Bool → Reading J → Reading J
  opened can_read file = if can_read then file else unreadable

  unfoldable pub packet : Packet → Persist → Persist
  packet p s = on_maps p (position_maps s.maps (opened p.can_read s.file)) s

  abbrev pub packets : List Packet → Persist → Persist
  packets [] s = s
  packets (p ∷ ps) s = packets ps (packet p s)
