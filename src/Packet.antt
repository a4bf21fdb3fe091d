-- ===== src/Packet.antt =====
-- Packets: lib/srvd/libsrvd/protocol/packet.c up to `srvd_protocol_packet_field_insert`, and
-- `srvd_protocol_packet_field_get_first` of include/srvd/protocol/packet.h. The linked list of
-- fields is a list of its nodes, in order, and a pointer to a field is its position there.
pub mod Update
pub mod View
pub mod Live
pub mod Freed
pub mod Positions
pub mod Ownership
use srvd.Base.{
  ℕ, suc, ◌+◌, Bool, true, false, not, Option, none, some, List, [], ◌∷◌, ◌++◌, ltb, ◌==◌,
  if◌then◌else◌, length, get_elem?, set, head?, last?, is_some,
}
use srvd.Memory.{Bytes, M, pure, undefined, ◌>>=◌, ◌>>◌, malloc, free, be16, be32}
use srvd.Field.{
  Entry, Field, increment, field_allocate, field_free, field_initialize, field_finalize, entry_add,
}

-- A node that the list still links: a field, or storage that was given to `free`.
pub data Slot : Type 0 where
  live : Field → Slot
  freed : Slot

-- `struct srvd_protocol_packet`
pub record Packet : Type 0 where
  pub field_count : ℕ
  pub fields : List Slot

-- `srvd_protocol_packet_allocate` and `srvd_protocol_packet_free`
abbrev pub packet_allocate : M Bool
packet_allocate = malloc

abbrev pub packet_free : M (Unit {0})
packet_free = free

-- `srvd_protocol_packet_initialize`
abbrev pub packet_initialize : Bool × Packet
packet_initialize = (true, record { field_count = 0; fields = [] })

finalize_fields : List Slot → M (Unit {0})
finalize_fields [] = pure tt
finalize_fields (freed ∷ ss) = undefined
finalize_fields (live f ∷ ss) = do _ ← field_finalize f; field_free; finalize_fields ss

-- `srvd_protocol_packet_finalize`
pub packet_finalize : Packet → M (Bool × Packet)
packet_finalize p = do finalize_fields p.fields; pure packet_initialize

-- The access through `field->previous` or `field->next` when a neighbour is linked.
touch : Option Slot → M (Unit {0})
touch none = pure tt
touch (some (live f)) = pure tt
touch (some freed) = undefined

-- `_srvd_protocol_packet_field_add_locked`
pub field_add_locked : Packet → Field → M Packet
field_add_locked p f = do
  touch (last? p.fields)
  pure (record p { fields = p.fields ++ live f ∷ []; field_count = increment p.field_count })

-- `_srvd_protocol_packet_field_inject_locked`
pub field_inject_locked : Packet → Field → M Packet
field_inject_locked p f = do
  touch (head? p.fields)
  pure (record p { fields = live f ∷ p.fields; field_count = increment p.field_count })

-- `srvd_protocol_packet_field_add`
abbrev pub field_add : Packet → Field → M (Bool × Packet)
field_add p f = do q ← field_add_locked p f; pure (true, q)

-- `srvd_protocol_packet_field_inject`
abbrev pub field_inject : Packet → Field → M (Bool × Packet)
field_inject p f = do q ← field_inject_locked p f; pure (true, q)

-- The loop of `srvd_protocol_packet_field_get_by_offset`: `i` is the position of the node, `c` the
-- `uint16_t` counter. Going on to the next node reads this one.
pub offset_loop : ℕ → ℕ → ℕ → List Slot → M (Option ℕ)
offset_loop offset i c [] = pure none
offset_loop offset i c (s ∷ ss) =
    let rest = offset_loop offset (i + 1) (increment c) ss in
    if c == offset then pure (some i) else touch (some s) >> rest

-- `srvd_protocol_packet_field_get_by_offset`
pub field_get_by_offset : Packet → ℕ → M (Option ℕ)
field_get_by_offset p offset =
    if not (ltb offset p.field_count) then pure none else offset_loop offset 0 0 p.fields

-- The loop of `srvd_protocol_packet_field_get_by_type`.
type_loop : ℕ → ℕ → List Slot → M (Option ℕ)
type_loop type i [] = pure none
type_loop type i (freed ∷ ss) = undefined
type_loop type i (live f ∷ ss) =
    let rest = type_loop type (i + 1) ss in if f.type == type then pure (some i) else rest

-- `srvd_protocol_packet_field_get_by_type`
pub field_get_by_type : Packet → ℕ → M (Option ℕ)
field_get_by_type p type = type_loop type 0 p.fields

-- `packet->field_head`
abbrev pub field_head : List Slot → Option ℕ
field_head [] = none
field_head (s ∷ ss) = some 0

-- `srvd_protocol_packet_field_get_first`
abbrev pub field_get_first : Packet → Option ℕ
field_get_first p = field_head p.fields

unfoldable pub deref_slot : Option Slot → M Field
deref_slot none = undefined
deref_slot (some freed) = undefined
deref_slot (some (live f)) = pure f

-- `*field` for a pointer into the packet
unfoldable pub field_at : Packet → ℕ → M Field
field_at p i = deref_slot (get_elem? p.fields i)

-- A write through such a pointer.
abbrev pub set_slot : Packet → ℕ → Slot → Packet
set_slot p i s = record p { fields = set p.fields i s }

-- `srvd_protocol_packet_field_entry_add` through such a pointer
pub entry_add_at : Packet → ℕ → ℕ → Option Bytes → M (Bool × Packet)
entry_add_at p i size bytes = do
  f ← field_at p i
  (status, g) ← entry_add f size bytes
  pure (status, set_slot p i (live g))

-- `srvd_protocol_packet_field_finalize` and `srvd_protocol_packet_field_free` on a field that the
-- packet links: the node goes back to `free` and stays linked.
unfoldable pub field_release_at : Packet → ℕ → M Packet
field_release_at p i = do
  f ← field_at p i
  _ ← field_finalize f
  field_free
  pure (set_slot p i freed)
