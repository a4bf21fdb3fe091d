-- ===== src/Packet/Ownership.antt =====
-- The blocks that a packet of lib/srvd/libsrvd/protocol/packet.c owns.
use srvd.Base.{ℕ, ◌+◌, ◌≡◌, List, [], ◌∷◌, arith}
use srvd.Memory.{Mem, ok, free, gave_back}
use srvd.Field.Ownership.{entries_blocks, field_finalize-gave_back}
use srvd.Packet.{Slot, live, freed, Packet, packet_initialize, finalize_fields, packet_finalize}
use srvd.Packet.Live.{IsLive, LiveSlots}

-- A node for each field, and the blocks of its entries.
abbrev pub slots_blocks : List Slot → ℕ
slots_blocks [] = 0
slots_blocks (live f ∷ ss) = entries_blocks f.entries + 1 + slots_blocks ss
slots_blocks (freed ∷ ss) = slots_blocks ss

finalize_fields-gave_back :
    (ss : List Slot) (m : Mem)
    → LiveSlots ss
    → finalize_fields ss m ≡ ok tt (gave_back (slots_blocks ss) m)
unfolding finalize_fields free
finalize_fields-gave_back [] m alive = ground arith
finalize_fields-gave_back (freed ∷ ss) m alive = absurd alive
finalize_fields-gave_back (live f ∷ ss) m alive =
    let n = entries_blocks f.entries in
    let total : m.released + n + 1 + slots_blocks ss ≡ m.released + (n + 1 + slots_blocks ss) =
      omega arith in
    rw (
      field_finalize-gave_back f m,
      finalize_fields-gave_back ss (gave_back 1 (gave_back (entries_blocks f.entries) m)) alive,
      total,
    )

-- `packet_finalize` of a packet none of whose fields was freed gives each block of its fields and
-- entries back once, and leaves an empty packet.
pub packet_finalize-gave_back :
    (p : Packet) (m : Mem)
    → IsLive p
    → packet_finalize p m ≡ ok packet_initialize (gave_back (slots_blocks p.fields) m)
unfolding packet_finalize
packet_finalize-gave_back p m alive = rw (finalize_fields-gave_back p.fields m alive)
