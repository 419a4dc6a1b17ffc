-- ===== src/Modbus/WriteAck.antt =====
-- `GrowattModbusWriteAck` of grobro/model/modbus_message.py.
use gro_bro.Prelude.{
  ◌>>=◌, ℕ, ◌-◌, ◌/◌, ◌%◌, ◌<◌, ◌≡◌, Option, none, some, [], ◌∷◌, ◌++◌, arith, ltb, if◌then◌else◌,
  length, drop, slice, length-drop,
}
use gro_bro.Bytes.{Bytes, be, pack_byte, pack_word}
use gro_bro.Modbus.Device.{write_single_ack_size}

pub record WriteAck : Type 0 where
  pub register_no : ℕ
  pub value : ℕ
  pub status : ℕ

-- Register, status, echoed value.
unfoldable pub parse_write_ack : Bytes → ℕ → Option WriteAck
parse_write_ack buffer offset =
    let window = drop offset buffer in
    if ltb (length buffer - offset) write_single_ack_size
    then none
    else some (record {
      register_no = be (slice 0 2 window);
      value = be (slice 3 5 window);
      status = be (slice 2 3 window);
    })

unfoldable pub build_write_ack : WriteAck → Option Bytes
build_write_ack a = do
  r ← pack_word a.register_no
  s ← pack_byte a.status
  v ← pack_word a.value
  some (r ++ s ++ v)

pub record IsAck (a : WriteAck) : Type 0 where
  pub register_word : a.register_no < 65536
  pub value_word : a.value < 65536
  pub status_byte : a.status < 256

abbrev pub ack_bytes : WriteAck → Bytes
ack_bytes a =
    (a.register_no / 256)
    ∷ (a.register_no % 256)
    ∷ a.status
    ∷ (a.value / 256)
    ∷ (a.value % 256)
    ∷ []

pub build_write_ack-IsAck : (a : WriteAck) → IsAck a → build_write_ack a ≡ some (ack_bytes a)
unfolding build_write_ack
build_write_ack-IsAck a h = ground arith

-- An acknowledgement that stands at `offset` is read from there, whatever follows.
pub parse_write_ack-bytes :
    (a : WriteAck) (buffer : Bytes) (offset : ℕ) (rest : Bytes)
    → IsAck a
    → drop offset buffer ≡ ack_bytes a ++ rest
    → parse_write_ack buffer offset ≡ some a
unfolding parse_write_ack
parse_write_ack-bytes a buffer offset rest h e = rw (← length-drop offset buffer, e) (ground arith)
