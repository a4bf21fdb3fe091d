-- ===== src/Packet/Update/Overread.antt =====
-- `srvd_protocol_packet_field_append` of lib/srvd/libsrvd/protocol/packet.c with a size beyond the
-- bytes that are there.
use srvd.Base.{
  ℕ, ◌+◌, ◌<◌, ◌≡◌, refl, true, false, some, [], arith, length, ltb, lt→ltb, lt→leb, ◌==◌,
}
use srvd.Memory.{Bytes, Mem, fault, taken, malloc, copy, Plenty}
use srvd.Field.{Field, field_initialize, entry_add, new_entry, entry_content, fill_entry}
use srvd.Packet.View.{packet_of, field_get_by_type-index_from}
use srvd.Packet.Update.{field_append, fresh_field, with_entry}

entry_add-overread :
    (f : Field) (size : ℕ) (bs : Bytes) (m : Mem)
    → Plenty m
    → length bs < size
    → entry_add f size (some bs) m ≡ fault
unfolding entry_add new_entry entry_content fill_entry malloc copy
entry_add-overread f size bs m plenty short =
    let positive : ltb 0 size ≡ true = lt→ltb 0 size (omega (arith, short)) in
    let nonzero : (size == 0) ≡ false = ground (arith, short) in
    rw (nonzero, plenty m.calls, positive, plenty (m.calls + 1), lt→leb (length bs) size short) refl

-- With memory at hand, the copy of a value reads behind its end.
pub field_append-overread :
    (t size : ℕ) (bs : Bytes) (m : Mem)
    → Plenty m
    → length bs < size
    → field_append (packet_of []) t size (some bs) m ≡ fault
unfolding field_append fresh_field with_entry malloc
field_append-overread t size bs m plenty short =
    rw
      (
        field_get_by_type-index_from t [],
        plenty m.calls,
        entry_add-overread (field_initialize t).1 size bs (taken m) plenty short,
      )
      refl
