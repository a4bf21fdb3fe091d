-- ===== src/Serial/RoundTrip.antt =====
-- A sender and a receiver that use lib/srvd/libsrvd/protocol/serial_packet.c.
use srvd.Base.{
  ◌+◌, ◌^◌, ◌<◌, ◌≡◌, refl, Bool, true, false, not, List, [], length, take, drop, All, append-nil,
  if◌then◌else◌,
}
use srvd.Memory.{Mem, M, ok, pure, undefined, ◌>>=◌, taken, Plenty}
use srvd.Field.View.{Item}
use srvd.Packet.{Packet}
use srvd.Packet.View.{packet_of}
use srvd.Serial.{
  SerialPacket, Block, block, null, dangling, header_size, serialize, unserialize_header,
  unserialize_body,
}
use srvd.Serial.Encode.{encode_items, Counted}
use srvd.Serial.Serialize.{serialize-encode}
use srvd.Serial.Entries.{Unique}
use srvd.Serial.Unserialize.{
  IsItem, grant_items, unserialize_header-encode_header, unserialize_body-encode_items,
}

-- The two reads of a receiver, on the bytes that a sender wrote: the header, then the body.
abbrev pub receive : SerialPacket → Block → Packet → M (Bool × Packet)
receive s null packet = undefined
receive s dangling packet = undefined
receive s (block bytes) packet = do
  (status, s) ← unserialize_header s (take header_size bytes)
  if not status then pure (false, packet) else unserialize_body s packet (drop header_size bytes)

-- A packet that the wire format can carry: the counts, types and sizes fit their words, no value is
-- empty, and no two fields have the same type.
pub record IsWire (its : List Item) : Type 0 where
  pub counted : Counted its
  pub small : length (encode_items its) < 2 ^ 32
  pub items : All IsItem its
  pub unique : Unique its

pub whole_body :
    (u : SerialPacket) (its : List Item) (m : Mem)
    → u.field_count ≡ length its
    → u.body_size ≡ length (encode_items its)
    → IsWire its
    → Plenty m
    → unserialize_body u (packet_of []) (encode_items its) m
      ≡ ok (true, packet_of its) (grant_items its m)
whole_body u its m count size wire plenty =
    rw (append-nil (encode_items its)) at
      (unserialize_body-encode_items u [] its [] m count size wire.items wire.unique plenty)

-- With memory at hand on both sides, a packet that the wire format can carry arrives as it was sent,
-- field by field and value by value, and the receiver allocates the nodes and blocks of its fields.
pub receive-serialize :
    (s t : SerialPacket) (its : List Item) (m : Mem)
    → IsWire its
    → Plenty m
    → (serialize s (packet_of its) >>= λ (status, u). receive t u.content (packet_of [])) m
      ≡ ok (true, packet_of its) (grant_items its (taken m))
receive-serialize s t its m wire plenty =
    let u : SerialPacket = record t {
      field_count = length its;
      body_size = length (encode_items its);
      size = header_size + length (encode_items its);
    } in
    rw (
      serialize-encode s its m wire.counted (plenty m.calls),
      unserialize_header-encode_header t its (taken m) wire.counted.0 wire.small,
      whole_body u its (taken m) refl refl wire plenty,
    )
