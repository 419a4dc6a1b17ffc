-- ===== src/Battery.antt =====
-- The battery slots of grobro/ha/battery_position.py, from the payload of a device to the payload in
-- which each pack's values stand under its logical slot, and the JSON files behind them. The loops that
-- give packs their slots (Slots) compare serial numbers only, so a number stands for each; the order of
-- their dicts is not read, so a new entry is put at the front.
pub mod Slots
pub mod Stable
pub mod Places
pub mod Keys
pub mod Patterns
pub mod Renames
pub mod Serials
pub mod Payload
pub mod Moves
pub mod Remap
pub mod Aside
pub mod Unique
pub mod Expected
pub mod Placed
pub mod Shortcut
pub mod Stabilized
pub mod Files
pub mod Loaded
pub mod Saved
pub mod Reloaded
pub mod Asked
pub mod Saves
pub mod Detected
pub mod Numbers
pub mod Plausible
pub mod Persist
pub mod Reread
pub mod Good
pub mod Remapped
pub mod Assigned
pub mod InStep
pub mod Written
pub mod Recorded
pub mod Records
