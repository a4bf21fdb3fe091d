-- ===== src/Packet/Positions.antt =====
-- `srvd_protocol_packet_field_get_by_offset` of lib/srvd/libsrvd/protocol/packet.c.
use srvd.Base.{
  ℕ, zero, suc, ◌+◌, ◌%◌, ◌^◌, ◌≤◌, ◌<◌, ◌≡◌, none, some, List, [], ◌∷◌, map, arith, length, ltb,
  if◌then◌else◌, Bool-cases, inl, inr, ltb→lt,
}
use srvd.Memory.{Mem, ok}
use srvd.Field.{increment}
use srvd.Field.View.{Item}
use srvd.Packet.{offset_loop, touch, field_get_by_offset}
use srvd.Packet.View.{packet_of, slot_of}

offset_loop-some :
    (its : List Item) (o i c j : ℕ) (m : Mem)
    → o ≡ c + j
    → j < length its
    → c + length its ≤ 2 ^ 16
    → offset_loop o i c (map slot_of its) m ≡ ok (some (i + j)) m
unfolding offset_loop touch
offset_loop-some [] o i c j m at inside fits = absurd (omega arith)
offset_loop-some (it ∷ its) o i c zero m at inside fits = ground arith
offset_loop-some (it ∷ []) o i c (suc j) m at inside fits = absurd (omega arith)
offset_loop-some (it ∷ jt ∷ its) o i c (suc j) m at inside fits =
    let next : increment c ≡ c + 1 = omega arith in
    ground (arith, next, offset_loop-some (jt ∷ its) o (i + 1) (c + 1) j m)

-- `field_get_by_offset` of a packet of less than 2 ^ 16 fields finds the field at the offset, and none behind the last one.
pub field_get_by_offset-position :
    (its : List Item) (o : ℕ) (m : Mem)
    → length its < 2 ^ 16
    → field_get_by_offset (packet_of its) o m ≡ ok (if ltb o (length its) then some o else none) m
unfolding field_get_by_offset
field_get_by_offset-position its o m fits =
    let same : length its % 2 ^ 16 ≡ length its = omega arith in
    let start : 0 + o ≡ o = omega arith in
    elim (Bool-cases (ltb o (length its))) [
      | inl e ↦
          rw (same, e)
            (rw start at (
              offset_loop-some its o 0 0 o m (omega arith) (ltb→lt o (length its) e) (omega arith)))
      | inr e ↦ rw (same, e)
    ]
