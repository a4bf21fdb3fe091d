-- ===== src/Serial/Balance.antt =====
-- The allocations of `unserialize_body` of lib/srvd/libsrvd/protocol/serial_packet.c.
use srvd.Base.{ℕ, ◌+◌, ◌*◌, ◌≡◌, refl, List, [], ◌∷◌, ◌++◌, map, arith, length, All}
use srvd.Memory.{Bytes, Mem, ok, Plenty, gave_back, granted, taken, ◌>>=◌}
use srvd.Field.Ownership.{entries_blocks}
use srvd.Field.View.{Item, entry_of}
use srvd.Packet.{packet_finalize, packet_initialize}
use srvd.Packet.Live.{LiveSlots}
use srvd.Packet.View.{packet_of, slot_of}
use srvd.Packet.Ownership.{slots_blocks, packet_finalize-gave_back}
use srvd.Serial.{SerialPacket, unserialize_body}
use srvd.Serial.Encode.{encode_items}
use srvd.Serial.Entries.{IsValue, grant_values, Unique}
use srvd.Serial.Unserialize.{IsItem, grant_items, unserialize_body-encode_items}

-- A node for each field, and a node and a block for each value.
abbrev pub blocks : List Item → ℕ
blocks [] = 0
blocks (it ∷ its) = 2 * length it.values + 1 + blocks its

grant_values-granted : (vs : List Bytes) (m : Mem) → grant_values vs m ≡ granted (2 * length vs) m
grant_values-granted [] m = ground arith
grant_values-granted (v ∷ vs) m = ground (arith, grant_values-granted vs (taken (taken m)))

pub grant_items-granted : (its : List Item) (m : Mem) → grant_items its m ≡ granted (blocks its) m
grant_items-granted [] m = ground arith
grant_items-granted (it ∷ its) m = ground (
  arith,
  grant_values-granted it.values (taken m),
  grant_items-granted its (granted (2 * length it.values) (taken m)),
)

entries_blocks-values :
    (vs : List Bytes) → All IsValue vs → entries_blocks (map entry_of vs) ≡ 2 * length vs
entries_blocks-values [] good = refl
entries_blocks-values ([] ∷ vs) ((ne, _), good) = absurd (ne refl)
entries_blocks-values ((b ∷ bs) ∷ vs) (_, good) = omega (arith, entries_blocks-values vs good)

pub slots_blocks-blocks :
    (its : List Item) → All IsItem its → slots_blocks (map slot_of its) ≡ blocks its
slots_blocks-blocks [] good = refl
slots_blocks-blocks (it ∷ its) ((_, _, values), good) =
    omega (arith, entries_blocks-values it.values values, slots_blocks-blocks its good)

pub live-slot_of : (its : List Item) → LiveSlots (map slot_of its)
live-slot_of [] = tt
live-slot_of (it ∷ its) = live-slot_of its

-- With memory at hand, reading a body in the wire format, whose fields fit their words, have no empty
-- value and have different types, into an empty packet and finalizing the packet gives back exactly
-- the blocks that the reading allocated.
pub packet_finalize-unserialize_body :
    (s : SerialPacket) (its : List Item) (rest : Bytes) (m : Mem)
    → s.field_count ≡ length its
    → s.body_size ≡ length (encode_items its)
    → All IsItem its
    → Unique its
    → Plenty m
    → (unserialize_body s (packet_of []) (encode_items its ++ rest) >>= λ (status, q).
          packet_finalize q)
        m
      ≡ ok packet_initialize (gave_back (blocks its) (granted (blocks its) m))
packet_finalize-unserialize_body s its rest m count size good unique plenty = rw (
  unserialize_body-encode_items s [] its rest m count size good unique plenty,
  packet_finalize-gave_back (packet_of its) (grant_items its m) (live-slot_of its),
  grant_items-granted its m,
  slots_blocks-blocks its good,
)
