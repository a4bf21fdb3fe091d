-- ===== src/Serial.antt =====
-- The wire format: lib/srvd/libsrvd/protocol/serial_packet.c and
-- include/srvd/protocol/serial_packet.h. A pointer into a buffer is an offset.
pub mod Encode
pub mod Serialize
pub mod Entries
pub mod Unserialize
pub mod Safety
pub mod Dangling
pub mod Rejects
pub mod RoundTrip
pub mod Balance
use srvd.Base.{
  ℕ, zero, suc, ◌+◌, ◌*◌, Bool, true, false, not, Option, none, some, List, [], ◌∷◌, ltb, leb, ◌==◌,
  if◌then◌else◌, replicate, drop,
}
use srvd.Memory.{
  Bytes, M, pure, undefined, ◌>>=◌, ◌>>◌, malloc, free, copy, write, be16, be32, read16, read32,
}
use srvd.Field.{Entry}
use srvd.Packet.{Packet, Slot, live, freed, field_release_at, entry_add_at}
use srvd.Packet.Update.{field_get_or_add}

-- `SRVD_PROTOCOL_SERIAL_PACKET_VERSION` and the sizes of the headers
abbrev pub version : ℕ
version = 110

abbrev pub header_size : ℕ
header_size = 8

abbrev pub field_header_size : ℕ
field_header_size = 4

abbrev pub entry_header_size : ℕ
entry_header_size = 2

-- The `data` pointer of a serial packet: `NULL`, a block, or a block given to `free`.
pub data Block : Type 0 where
  null dangling : Block
  block : Bytes → Block

-- `struct srvd_protocol_serial_packet`
pub record SerialPacket : Type 0 where
  pub size : ℕ
  pub body_size : ℕ
  pub field_count : ℕ
  pub content : Block

-- `srvd_protocol_serial_packet_allocate` and `srvd_protocol_serial_packet_free`
abbrev pub serial_allocate : M Bool
serial_allocate = malloc

abbrev pub serial_free : M (Unit {0})
serial_free = free

-- `srvd_protocol_serial_packet_initialize`, which leaves `field_count` alone
abbrev pub serial_initialize : SerialPacket → Bool × SerialPacket
serial_initialize s = (true, record s { size = 0; body_size = 0; content = null })

unfoldable pub release_block : Block → M Block
release_block null = pure null
release_block dangling = undefined
release_block (block bs) = free >> pure dangling

-- `srvd_protocol_serial_packet_finalize`, which leaves the pointer alone
unfoldable pub serial_finalize : SerialPacket → M (Bool × SerialPacket)
serial_finalize s = do
  b ← release_block s.content
  pure (true, record s { size = 0; body_size = 0; content = b })

-- The loops of `_srvd_protocol_serial_packet_body_size`. The sums are over data that is in memory,
-- so they stay below the range of a `size_t`.
pub entry_sizes : List Entry → ℕ → ℕ
entry_sizes [] size = size
entry_sizes (e ∷ es) size = entry_sizes es (size + e.size)

field_sizes : List Slot → ℕ → M ℕ
field_sizes [] size = pure size
field_sizes (freed ∷ ss) size = undefined
field_sizes (live f ∷ ss) size =
    field_sizes ss (entry_sizes f.entries (size + entry_header_size * f.entry_count))

pub body_size_of : Packet → M ℕ
body_size_of p = field_sizes p.fields (field_header_size * p.field_count)

-- The inner loop of `serialize`: the pointer behind the entries, and the buffer.
write_entries : List Entry → ℕ → Bytes → M (ℕ × Bytes)
write_entries [] p buffer = pure (p, buffer)
write_entries (e ∷ es) p buffer = do
  buffer ← write p (be16 e.size) buffer
  bs ← copy e.content e.size
  buffer ← write (p + entry_header_size) bs buffer
  write_entries es (p + entry_header_size + e.size) buffer

pub write_fields : List Slot → ℕ → Bytes → M Bytes
write_fields [] p buffer = pure buffer
write_fields (freed ∷ ss) p buffer = undefined
write_fields (live f ∷ ss) p buffer = do
  buffer ← write p (be16 f.type) buffer
  buffer ← write (p + 2) (be16 f.entry_count) buffer
  (p, buffer) ← write_entries f.entries (p + field_header_size) buffer
  write_fields ss p buffer

-- `serialize` once the block is there.
write_packet : SerialPacket → Packet → Bytes → M (Bool × SerialPacket)
write_packet s p buffer = do
  buffer ← write 0 (be16 version) buffer
  buffer ← write 2 (be16 p.field_count) buffer
  buffer ← write 4 (be32 s.body_size) buffer
  buffer ← write_fields p.fields header_size buffer
  pure (true, record s { content = block buffer })

-- `srvd_protocol_serial_packet_serialize`: the status and the serial packet
pub serialize : SerialPacket → Packet → M (Bool × SerialPacket)
serialize s p = do
  body_size ← body_size_of p
  got ← malloc
  let s' : SerialPacket = record {
    size = body_size + header_size;
    body_size = body_size;
    field_count = p.field_count;
    content = null;
  }
  if not got then pure (false, s') else write_packet s' p (replicate s'.size 0)

-- `srvd_protocol_serial_packet_unserialize_header`
pub unserialize_header : SerialPacket → Bytes → M (Bool × SerialPacket)
unserialize_header s header = do
  v ← read16 header 0
  if not (v == version) then pure (false, s) else do
    count ← read16 header 2
    body_size ← read32 header 4
    pure (
      true,
      record s { field_count = count; body_size = body_size; size = header_size + body_size },
    )

-- The loop over the entries of one field, which is at position `i` of the packet. The result is
-- the pointer behind them, or `none` with the status `SRVD_FALSE`.
unfoldable pub read_entries : ℕ → Bytes → ℕ → ℕ → ℕ → Packet → M (Option ℕ × Packet)
read_entries body_size body i zero p packet = pure (some p, packet)
read_entries body_size body i (suc n) p packet = do
  size ← read16 body p
  if ltb body_size (p + entry_header_size + size)
      then (do packet ← field_release_at packet i; pure (none, packet))
      else do
        (status, packet) ← entry_add_at packet i size (some (drop (p + entry_header_size) body))
        if not status
            then (do packet ← field_release_at packet i; pure (none, packet))
            else read_entries body_size body i n (p + entry_header_size + size) packet

-- The entries of the field that `field_get_or_add` returned, if it returned one.
pub read_field : ℕ → Bytes → ℕ → ℕ → Option ℕ → Packet → M (Option ℕ × Packet)
read_field body_size body entry_count p none packet = pure (none, packet)
read_field body_size body entry_count p (some i) packet =
    read_entries body_size body i entry_count p packet

-- One round of the loop over the fields: the pointer behind the field, or `none` with the status
-- `SRVD_FALSE`.
pub field_round : ℕ → Bytes → ℕ → Packet → M (Option ℕ × Packet)
field_round body_size body p packet = if leb body_size p then pure (none, packet) else do
  type ← read16 body p
  entry_count ← read16 body (p + 2)
  if ltb body_size (p + field_header_size + entry_count * entry_header_size)
      then pure (none, packet)
      else do
        (field, packet) ← field_get_or_add packet type
        read_field body_size body entry_count (p + field_header_size) field packet

-- Where a round ended decides whether the loop goes on.
next_field : (ℕ → Packet → M (Bool × Packet)) → Option ℕ → Packet → M (Bool × Packet)
next_field go none packet = pure (false, packet)
next_field go (some q) packet = go q packet

-- The loop over the fields, `n` of which are left.
pub read_fields : ℕ → Bytes → ℕ → ℕ → Packet → M (Bool × Packet)
read_fields body_size body zero p packet = pure (true, packet)
read_fields body_size body (suc n) p packet = do
  (end, packet) ← field_round body_size body p packet
  next_field (read_fields body_size body n) end packet

-- `srvd_protocol_serial_packet_unserialize_body`: the status and the packet
pub unserialize_body : SerialPacket → Packet → Bytes → M (Bool × Packet)
unserialize_body s packet body =
    if ltb s.body_size (s.field_count * field_header_size)
    then pure (false, packet)
    else read_fields s.body_size body s.field_count 0 packet
