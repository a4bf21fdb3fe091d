-- ===== src/Packet/Update.antt =====
-- The operations of lib/srvd/libsrvd/protocol/packet.c that look a type up and add a field for it,
-- and the typed wrappers of include/srvd/protocol/packet.h.
pub mod View
pub mod Live
pub mod Append
pub mod Values
pub mod Lookup
pub mod Overread
use srvd.Base.{
  ℕ, ◌%◌, Bool, true, false, not, Option, none, some, [], ◌∷◌, if◌then◌else◌, length, is_some,
}
use srvd.Memory.{Bytes, M, pure, ◌>>=◌, ◌>>◌, malloc, free, be16, be32}
use srvd.Field.{Field, field_allocate, field_free, field_initialize, field_finalize, entry_add}
use srvd.Packet.{Packet, field_add_locked, field_inject_locked, field_get_by_type}

-- A field fresh from `field_allocate` and `field_initialize`; `none` after a failure.
pub fresh_field : ℕ → M (Option Field)
fresh_field type = do
  got ← field_allocate
  if not got
      then pure none
      else let (status, f) = field_initialize type in
        if not status then field_free >> pure none else pure (some f)

pub add_fresh : Packet → Option Field → M (Option ℕ × Packet)
add_fresh p none = pure (none, p)
add_fresh p (some f) = do q ← field_add_locked p f; pure (some (length p.fields), q)

inject_fresh : Packet → Option Field → M (Option ℕ × Packet)
inject_fresh p none = pure (none, p)
inject_fresh p (some f) = do q ← field_inject_locked p f; pure (some 0, q)

-- What follows the lookup of `srvd_protocol_packet_field_get_or_add`.
or_add : Packet → ℕ → Option ℕ → M (Option ℕ × Packet)
or_add p type (some i) = pure (some i, p)
or_add p type none = fresh_field type >>= add_fresh p

or_inject : Packet → ℕ → Option ℕ → M (Option ℕ × Packet)
or_inject p type (some i) = pure (some i, p)
or_inject p type none = fresh_field type >>= inject_fresh p

-- `srvd_protocol_packet_field_get_or_add`: the field, or `none` with the status `SRVD_FALSE`
pub field_get_or_add : Packet → ℕ → M (Option ℕ × Packet)
field_get_or_add p type = field_get_by_type p type >>= or_add p type

-- `srvd_protocol_packet_field_get_or_inject`
pub field_get_or_inject : Packet → ℕ → M (Option ℕ × Packet)
field_get_or_inject p type = field_get_by_type p type >>= or_inject p type

-- What `field_append` and `field_insert` do after `field_initialize`: the first entry, and on its
-- failure the end of the new field.
pub with_entry : ℕ → Option Bytes → Option Field → M (Option Field)
with_entry size bytes none = pure none
with_entry size bytes (some f) = do
  (status, g) ← entry_add f size bytes
  if status then pure (some g) else do _ ← field_finalize g; field_free; pure none

pub add_built : Packet → Option Field → M (Bool × Packet)
add_built p none = pure (false, p)
add_built p (some f) = do q ← field_add_locked p f; pure (true, q)

inject_built : Packet → Option Field → M (Bool × Packet)
inject_built p none = pure (false, p)
inject_built p (some f) = do q ← field_inject_locked p f; pure (true, q)

-- `srvd_protocol_packet_field_append`: the status and the packet
pub field_append : Packet → ℕ → ℕ → Option Bytes → M (Bool × Packet)
field_append p type size bytes = do
  found ← field_get_by_type p type
  if is_some found
      then pure (false, p)
      else (fresh_field type >>= with_entry size bytes) >>= add_built p

-- `srvd_protocol_packet_field_insert`
pub field_insert : Packet → ℕ → ℕ → Option Bytes → M (Bool × Packet)
field_insert p type size bytes = do
  found ← field_get_by_type p type
  if is_some found
      then pure (false, p)
      else (fresh_field type >>= with_entry size bytes) >>= inject_built p

abbrev pub field_append_uint32 : Packet → ℕ → ℕ → M (Bool × Packet)
field_append_uint32 p type value = field_append p type 4 (some (be32 value))

abbrev pub field_append_uint16 : Packet → ℕ → ℕ → M (Bool × Packet)
field_append_uint16 p type value = field_append p type 2 (some (be16 value))

abbrev pub field_append_uint8 : Packet → ℕ → ℕ → M (Bool × Packet)
field_append_uint8 p type value = field_append p type 1 (some ((value % 256) ∷ []))

abbrev pub field_insert_uint32 : Packet → ℕ → ℕ → M (Bool × Packet)
field_insert_uint32 p type value = field_insert p type 4 (some (be32 value))

abbrev pub field_insert_uint16 : Packet → ℕ → ℕ → M (Bool × Packet)
field_insert_uint16 p type value = field_insert p type 2 (some (be16 value))

abbrev pub field_insert_uint8 : Packet → ℕ → ℕ → M (Bool × Packet)
field_insert_uint8 p type value = field_insert p type 1 (some ((value % 256) ∷ []))
