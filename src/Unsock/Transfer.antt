-- ===== src/Unsock/Transfer.antt =====
-- `write` and `read` of lib/srvd/libsrvd/client/unsock.c against the wire format.
use srvd.Base.{ℕ, ◌+◌, ◌≡◌, refl, true, Option, some, List, [], arith, length, ==_iff, ◌==◌}
use srvd.Memory.{◌>>=◌, Bytes, Mem, ok, taken, free, malloc, gave_back, Plenty}
use srvd.Field.View.{Item}
use srvd.Packet.View.{packet_of}
use srvd.Serial.{
  serialize, SerialPacket, null, serial_initialize, serial_finalize, release_block, header_size,
}
use srvd.Serial.Encode.{Counted, encode_items, encode_header}
use srvd.Serial.Serialize.{encode, serialize-encode}
use srvd.Serial.Unserialize.{grant_items, unserialize_header-encode_header}
use srvd.Serial.RoundTrip.{IsWire, whole_body}
use srvd.Unsock.{
  Unsock, complete, sent_bytes, write_serial, unsock_write, read_body, read_rest, read_header,
  unsock_read,
}

-- The writing and the reading behind the guards, which the server shares.
pub write_serial-encode :
    (s : SerialPacket) (writes : Bytes → Option ℕ) (its : List Item) (m : Mem)
    → Counted its
    → m.succeeds m.calls ≡ true
    → (serialize s (packet_of its) >>= write_serial writes) m
      ≡ ok
          (complete (length (encode its)) (writes (encode its)), encode its)
          (gave_back 1 (taken m))
unfolding write_serial sent_bytes serial_finalize release_block free
write_serial-encode s writes its m counted got =
    let size : length (encode_items its) + 8 ≡ length (encode its) = omega arith in
    rw (serialize-encode s its m counted got, size)

pub read_header-encode :
    (s : SerialPacket) (reads : ℕ → Option Bytes) (its : List Item) (m : Mem)
    → s.content ≡ null
    → IsWire its
    → reads (length (encode_items its)) ≡ some (encode_items its)
    → Plenty m
    → read_header s reads (packet_of []) (some (encode_header its)) m
      ≡ ok (true, packet_of its) (gave_back 1 (grant_items its (taken m)))
unfolding read_header read_rest read_body serial_finalize release_block free malloc
read_header-encode s reads its m clean wire answer plenty =
    let n = length (encode_items its) in
    let u : SerialPacket = record s {
      size = header_size + n;
      body_size = n;
      field_count = length its;
    } in
    let same : (n == n) ≡ true = (==_iff n n).1 refl in
    rw (
      unserialize_header-encode_header s its m wire.counted.0 wire.small,
      plenty m.calls,
      answer,
      same,
      whole_body u its (taken m) refl refl wire plenty,
      clean,
    )

-- When the block can be allocated and the counts of the packet fit, a connected client hands the wire format of the packet to `write` in one piece, succeeds exactly
-- when all of it was written, and gives its block back either way.
pub unsock_write-encode :
    (garbage : SerialPacket) (c : Unsock) (writes : Bytes → Option ℕ) (its : List Item) (m : Mem)
    → c.connected ≡ true
    → Counted its
    → m.succeeds m.calls ≡ true
    → unsock_write garbage c writes (packet_of its) m
      ≡ ok
          (complete (length (encode its)) (writes (encode its)), encode its)
          (gave_back 1 (taken m))
unfolding unsock_write
unsock_write-encode garbage c writes its m connected counted got =
    rw (connected) (write_serial-encode (serial_initialize garbage).1 writes its m counted got)

-- With memory at hand, when the header and the body that a connected client reads are those of a
-- packet that the wire format can carry, the packet arrives as it was sent, and the block for the
-- body goes back.
pub unsock_read-encode :
    (garbage : SerialPacket) (c : Unsock) (reads : ℕ → Option Bytes) (its : List Item) (m : Mem)
    → c.connected ≡ true
    → IsWire its
    → reads (length (encode_items its)) ≡ some (encode_items its)
    → Plenty m
    → unsock_read garbage c (some (encode_header its)) reads (packet_of []) m
      ≡ ok (true, packet_of its) (gave_back 1 (grant_items its (taken m)))
unfolding unsock_read
unsock_read-encode garbage c reads its m connected wire answer plenty =
    rw (connected)
      (read_header-encode (serial_initialize garbage).1 reads its m refl wire answer plenty)
