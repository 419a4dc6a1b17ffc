-- ===== src/Lib.antt =====
-- GroBro connects Growatt inverters and batteries to Home Assistant: devices send binary packets
-- over MQTT, which the program unscrambles, parses, and answers with commands that it builds.
--
-- The parts, the modules that model them, and the code:
--   Modbus   grobro/model/modbus_message.py and grobro/model/modbus_function.py. A message has a
--            header, metadata in function 4, and register blocks or an acknowledgement
--            (Modbus/Device, Block, Metadata, WriteAck, Message: `GrowattModbusMessage`, its
--            `parse_grobro` is `parse_message`; Build: `build_grobro` is `build_message`). Registers
--            has `get_data`. Command has the commands for one register and for several. RoundTrip,
--            Blocks, Sound, Accounts and CommandTrip hold the proofs.
--   Builder  grobro/grobro/builder.py: `scramble` and the configuration packets.
--   Config   grobro/grobro/parser.py: Tlv has `parse_config_type` and `find_config_offset`, Response
--            has `parse_config_message` and `parse_config_ack`; Total, RoundTrip, Entries and
--            Packets hold the proofs; Latest says what a list of settings comes to.
--   Noah     grobro/grobro/noah_0103.py: Embedded has `find_embedded_register_block`; Search and
--            Largest hold the proofs.
--   Protocol grobro/grobro/parser.py: Decoders has the decoders of the NOAH message types and their
--            dispatch `parse_noah_message`; Dispatch, Pairs, Meter and Offset hold the proofs.
--   Family   grobro/model/device_family.py: the families by prefix, and their capabilities; Prefix
--            holds the proofs.
--   Register grobro/model/growatt_registers.py: `GrowattRegisterDataType.parse` is `parse_value`;
--            Values holds the proofs.
--   Battery  grobro/ha/battery_position.py. Slots has the loops of `_stabilize_battery_payload_locked`
--            that give packs their logical slots; Stable, Places and Placed hold the proofs. Keys has
--            the names of a slot's values, Serials the serial numbers of a payload, Payload the whole
--            remapping (`stabilize_battery_payload`); Patterns, Renames, Moves, Remap, Aside, Expected,
--            Unique, Shortcut, Numbers and Stabilized hold the proofs. Files has what is read from and
--            written to the JSON files; Loaded, Saved, Reloaded and Saves hold the proofs, and Asked says
--            which manual choices are valid. Persist has the automatic assignments in memory and in
--            their file; Reread, Good, Remapped, Assigned, InStep and Written hold the proofs. Detected has
--            the packs that were reported last; Plausible, Recorded and Records hold the proofs.
--   Publish  grobro/ha/performance.py, grobro/ha/register_helpers.py and `publish_input` of
--            grobro/ha/client.py: Rules has `_register_rules` with its cache, Prepare
--            `_prepare_payload`, `_get_bat_number` and `map_enum_value`, Packet the way from a NOAH
--            payload to the one that is published, its serial numbers joined, States the caches that
--            suppress what is unchanged. Cached, Shown, Combined, Packs and UpToDate hold the proofs.
--   Dicts    Python's dicts keyed by texts; Cells has the values of a payload.
--   Reads    grobro/ha/client.py: the config-read sequence of one device
--            (`__queue_all_config_reads` is `queue_all`, `__kickoff_next_config_read` is `kickoff`),
--            with its two timers. Run has its histories, Phases their invariant, Drain its end by
--            timers alone, Order the registers it asks for.
--   Pending  grobro/grobro/client.py: the config writes of one device that wait for an
--            acknowledgement (`send_config_message` is `reserve` and `settle`); Bounds and Fifo hold
--            the proofs.
--   Client   grobro/grobro/client.py and grobro/grobro/cloud_policy.py: Receive has `__on_message`,
--            over State (`_remember_gateway` and what the client stores), Settings (configuration
--            packets, config responses and acknowledgements) and Telemetry (Modbus messages);
--            Policy has `CloudForwardingPolicy`, `_current_cloud_policy` and
--            `__on_message_forward_client`; Topic has the texts. Proper, Dispatch and Run follow every
--            branch through all histories; Route, Misread and Answers follow one kind of packet from
--            the wire to the callbacks, Reported says what is then reported; Allowlist and Forward are about the cloud.
--   Home     grobro/ha/client.py: Commands has the "set" branch of `__handle_message` and, of
--            grobro/grobro/client.py, `send_command`; Times and Wire hold the proofs.
--   Watch    grobro/ha/client.py: the availability of one device (`__refresh_device_activity`,
--            `__reset_device_timer`, whose `check_timeout` is `fire`, and `__publish_availability`);
--            Timely has the invariant of its timer, Silent what becomes of a silent device.
--   Bytes    Python's bytes and texts, `struct`, ASCII coding and padding; Prelude has the names
--            that all share; Tests has runs at concrete inputs.
-- A packet from a device comes to Client: it goes on to the cloud, is unscrambled (Builder), and is
-- read as a message (Modbus), as a config response (Config), which moves Reads and Pending on, or as
-- a NOAH message (Protocol, Noah). The decoded values of a device pass through Battery, which moves
-- those of a pack to its logical slot, and Publish, which prepares them for Home Assistant.
--
-- Conventions. Bytes and texts are lists of native numbers, a text by its code points; a theorem
-- that needs bytes below 256 says so. An exception is `none`, or a constructor of the component's
-- result. A loop runs on fuel that is one more than the length of the buffer, and each round takes
-- at least four bytes, so it never runs out. Python's integers are not bounded; `struct` fields
-- are, and packing fails out of range. The loops that assign slots compare serial numbers only, so
-- they have a number for each (`serial_number`); Persist has
-- the texts. Python dicts are association lists. Callbacks run
-- whole, one after the other, as the locks of the program order them; a timer that was cancelled or
-- replaced may still fire. What MQTT, the file system and the threads answer is an argument of each
-- step. The callbacks of `__on_message` are actions that it returns, and are taken to return;
-- topics, settings and serial numbers are ASCII where case and white space matter.
--
-- JSON values are a parameter of Files, with the conversions that the code makes; that a JSON is
-- read as it was written is a hypothesis, whose witness has a JSON of its own (Tests/Json). Whether
-- a file can be read or written is a Boolean of each packet in Persist.
--
-- Not modelled: MQTT and HTTP traffic, files, logs and captures, threads, translation tables, the
-- register maps (JSON data) and the discovery payloads made from them. The checksum of the package
-- `crc` is a parameter, of which the packets need that it is below 65536. Python's floats, and the
-- arithmetic on them, are a parameter of the register values. Of the validators of the pydantic
-- models, the one for serial numbers is modelled, where the client looks at one; a parsed
-- configuration is the dict that is handed to them.
pub mod Prelude
pub mod Bytes
pub mod Modbus
pub mod Builder
pub mod Config
pub mod Noah
pub mod Battery
pub mod Protocol
pub mod Family
pub mod Register
pub mod Reads
pub mod Pending
pub mod Client
pub mod Home
pub mod Watch
pub mod Dicts
pub mod Cells
pub mod Publish
pub mod Tests
