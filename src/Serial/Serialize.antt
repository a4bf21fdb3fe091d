-- ===== src/Serial/Serialize.antt =====
-- `srvd_protocol_serial_packet_serialize` of lib/srvd/libsrvd/protocol/serial_packet.c against the
-- abstract packet.
use srvd.Base.{
  ℕ, ◌+◌, ◌*◌, ◌%◌, ◌^◌, ◌<◌, ◌≡◌, refl, true, List, [], ◌∷◌, ◌++◌, map, arith, length, drop,
  replicate, length-append, length-replicate, append-nil, All, length-drop, drop-eq-nil,
}
use native.Mathlib.Nat.{add-zero}
use srvd.Memory.{Bytes, Mem, ok, taken, malloc, write-append, be16, be32, be16-mod}
use srvd.Field.View.{Item, entry_of}
use srvd.Packet.View.{packet_of, slot_of}
use srvd.Serial.{
  Block, version, header_size, SerialPacket, block, null, entry_sizes, field_sizes, body_size_of,
  write_packet, serialize,
}
use srvd.Serial.Encode.{
  encode_values, encode_items, encode_header, Counted, entry_sizes-encode, write_fields-encode,
}

abbrev pub encode : List Item → Bytes
encode its = encode_header its ++ encode_items its

-- The values of all fields with their headers.
payload : List Item → ℕ
payload [] = 0
payload (it ∷ its) = length (encode_values it.values) + payload its

length-encode_items : (its : List Item) → length (encode_items its) ≡ 4 * length its + payload its
unfolding payload
length-encode_items [] = refl
length-encode_items (it ∷ its) =
    omega
      (arith, length-encode_items its, length-append (encode_values it.values) (encode_items its))

field_sizes-payload :
    (its : List Item) (n : ℕ) (m : Mem)
    → All (λ it. length it.values < 2 ^ 16) its
    → field_sizes (map slot_of its) n m ≡ ok (n + payload its) m
unfolding field_sizes payload
field_sizes-payload [] n m counted = rw (add-zero n)
field_sizes-payload (it ∷ its) n m (c, cs) =
    let k = length it.values % 2 ^ 16 in
    let s = entry_sizes (map entry_of it.values) (n + 2 * k) in
    let same : k ≡ length it.values = omega arith in
    let total : s + payload its ≡ n + (length (encode_values it.values) + payload its) =
      omega (arith, entry_sizes-encode it.values (n + 2 * k)) in
    rw (field_sizes-payload its s m cs, total)

body_size_of-encode :
    (its : List Item) (m : Mem)
    → Counted its
    → body_size_of (packet_of its) m ≡ ok (length (encode_items its)) m
unfolding body_size_of
body_size_of-encode its m (c, cs) =
    let total : 4 * (length its % 2 ^ 16) + payload its ≡ length (encode_items its) =
      omega (arith, length-encode_items its) in
    rw (field_sizes-payload its (4 * (length its % 2 ^ 16)) m cs, total)

-- The serial packet of an abstract packet, around its `data`.
abbrev pub serial_of : List Item → Block → SerialPacket
serial_of its b = record {
  size = length (encode_items its) + header_size;
  body_size = length (encode_items its);
  field_count = length its % 2 ^ 16;
  content = b;
}

write_packet-encode :
    (its : List Item) (m : Mem) (slack : Bytes)
    → length slack ≡ length (encode_items its) + 8
    → write_packet (serial_of its null) (packet_of its) slack m
      ≡ ok (true, serial_of its (block (encode its))) m
unfolding write_packet
write_packet-encode its m slack room =
    let v = be16 version in
    let c = be16 (length its) in
    let z = be32 (length (encode_items its)) in
    let rest = drop 4 (drop 2 (drop 2 slack)) in
    let left₂ : length (drop 2 slack) + 2 ≡ length slack = omega (arith, length-drop 2 slack) in
    let left₄ : length (drop 2 (drop 2 slack)) + 4 ≡ length slack =
      omega (arith, length-drop 2 (drop 2 slack)) in
    let left₈ : length rest + 8 ≡ length slack =
      omega (arith, length-drop 4 (drop 2 (drop 2 slack))) in
    rw (
      be16-mod (length its),
      write-append 0 v [] slack refl (omega arith),
      write-append 2 c v (drop 2 slack) refl (omega arith),
      write-append 4 z (v ++ c) (drop 2 (drop 2 slack)) refl (omega arith),
      write_fields-encode its ((v ++ c) ++ z) rest 8 m refl (omega arith),
      drop-eq-nil (length (encode_items its)) rest (omega arith),
      append-nil,
    )

-- Whatever the serial packet held, `serialize` of a packet whose counts fit their `uint16_t`
-- succeeds when `malloc` does: it fills one block of exactly `size` bytes with the wire format,
-- and no write leaves the block.
pub serialize-encode :
    (s : SerialPacket) (its : List Item) (m : Mem)
    → Counted its
    → m.succeeds m.calls ≡ true
    → serialize s (packet_of its) m ≡ ok (true, serial_of its (block (encode its))) (taken m)
unfolding serialize malloc
serialize-encode s its m counted got = rw (
  body_size_of-encode its m counted,
  got,
  write_packet-encode its (taken m) (replicate (length (encode_items its) + 8) 0)
      (length-replicate (length (encode_items its) + 8) 0),
)
