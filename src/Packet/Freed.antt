-- ===== src/Packet/Freed.antt =====
-- A packet of lib/srvd/libsrvd/protocol/packet.c that still links a freed field.
use srvd.Base.{ℕ, zero, suc, ◌<◌, ◌≡◌, refl, List, [], ◌∷◌, arith, length, get_elem?, set}
use srvd.Memory.{Mem, fault, Yields, result, faulted, chain, weaken, free}
use srvd.Field.Ownership.{field_finalize-gave_back}
use srvd.Packet.{
  Slot, live, freed, Packet, finalize_fields, packet_finalize, deref_slot, field_at,
  field_release_at,
}

abbrev FreedSlot : List Slot → Type 0
FreedSlot [] = ⊥
FreedSlot (freed ∷ ss) = Unit {0}
FreedSlot (live f ∷ ss) = FreedSlot ss

abbrev pub HasFreed : Packet → Type 0
HasFreed p = FreedSlot p.fields

finalize_fields-fault : (ss : List Slot) (m : Mem) → FreedSlot ss → finalize_fields ss m ≡ fault
unfolding finalize_fields free
finalize_fields-fault [] m h = absurd h
finalize_fields-fault (freed ∷ ss) m h = refl
finalize_fields-fault (live f ∷ ss) m h =
    rw (field_finalize-gave_back f m) (finalize_fields-fault ss _ h)

-- `packet_finalize` follows the list into the freed field.
pub packet_finalize-fault : (p : Packet) (m : Mem) → HasFreed p → packet_finalize p m ≡ fault
unfolding packet_finalize
packet_finalize-fault p m h = rw (finalize_fields-fault p.fields m h)

FreedSlot-set : (ss : List Slot) (i : ℕ) → i < length ss → FreedSlot (set ss i freed)
FreedSlot-set [] i h = absurd (omega arith)
FreedSlot-set (s ∷ ss) zero h = tt
FreedSlot-set (live f ∷ ss) (suc i) h = FreedSlot-set ss i (omega arith)
FreedSlot-set (freed ∷ ss) (suc i) h = tt

deref_slot-Yields :
    (ss : List Slot) (i : ℕ) (m : Mem) → Yields (λ f. i < length ss) (deref_slot (get_elem? ss i) m)
unfolding deref_slot
deref_slot-Yields [] i m = faulted
deref_slot-Yields (live f ∷ ss) zero m = result (omega arith)
deref_slot-Yields (freed ∷ ss) zero m = faulted
deref_slot-Yields (s ∷ ss) (suc i) m = weaken (deref_slot-Yields ss i m) λ f h. omega arith

pub field_release_at-HasFreed :
    (p : Packet) (i : ℕ) (m : Mem) → Yields HasFreed (field_release_at p i m)
unfolding field_release_at field_at free
field_release_at-HasFreed p i m =
    chain (deref_slot-Yields p.fields i m)
      λ f m₁ found. rw (field_finalize-gave_back f m₁) (result (FreedSlot-set p.fields i found))
