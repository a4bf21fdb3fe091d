-- ===== src/Field.antt =====
-- Fields of a packet and their entries: lib/srvd/libsrvd/protocol/packet.c from
-- `srvd_protocol_packet_field_allocate` on, and the value adders and getters of
-- include/srvd/protocol/packet.h. The linked list of entries is a list of its nodes, in order.
pub mod View
pub mod Ownership
pub mod Leak
pub mod Positions
pub mod Words
pub mod Live
use srvd.Base.{
  ℕ, ◌+◌, ◌%◌, ◌^◌, Bool, true, false, not, Option, none, some, List, [], ◌∷◌, ◌++◌, ltb, ◌==◌,
  if◌then◌else◌, head?,
}
use srvd.Memory.{
  Bytes, M, pure, undefined, ◌>>=◌, ◌>>◌, malloc, free, copy, be16, be32, read16, read32,
}

-- `struct srvd_protocol_packet_field_entry`; the data of `NULL` is `none`.
pub record Entry : Type 0 where
  pub size : ℕ
  pub content : Option Bytes

-- `struct srvd_protocol_packet_field`
pub record Field : Type 0 where
  pub entry_count : ℕ
  pub entries : List Entry
  pub type : ℕ

-- `field_count++` and `entry_count++` on a `uint16_t`
abbrev pub increment : ℕ → ℕ
increment n = (n + 1) % 2 ^ 16

-- `srvd_protocol_packet_field_allocate`
abbrev pub field_allocate : M Bool
field_allocate = malloc

-- `srvd_protocol_packet_field_free`
abbrev pub field_free : M (Unit {0})
field_free = free

-- `srvd_protocol_packet_field_initialize`: the status and the field
abbrev pub field_initialize : ℕ → Bool × Field
field_initialize type = (true, record { entry_count = 0; entries = []; type = type })

unfoldable pub free_content : Option Bytes → M (Unit {0})
free_content none = pure tt
free_content (some _) = free

unfoldable pub finalize_entries : List Entry → M (Unit {0})
finalize_entries [] = pure tt
finalize_entries (e ∷ es) = do free_content e.content; free; finalize_entries es

-- `srvd_protocol_packet_field_finalize`; 0 is `SRVD_PROTOCOL_NONE`
unfoldable pub field_finalize : Field → M (Bool × Field)
field_finalize f = do
  finalize_entries f.entries
  pure (true, record { entry_count = 0; entries = []; type = 0 })

-- The two guards on the size and the data pointer.
abbrev pub mismatched : ℕ → Option Bytes → Bool
mismatched size none = not (size == 0)
mismatched size (some _) = size == 0

-- `memcpy` into the block for the data, if `malloc` gave one.
unfoldable pub fill_entry : ℕ → Option Bytes → Bool → M (Option Entry)
fill_entry size bytes block =
    if not block
    then pure none
    else do bs ← copy bytes size; pure (some (record { size = size; content = some bs }))

-- The data of an entry whose node is there. The node is not given back when the allocation for
-- the data fails.
unfoldable pub entry_content : ℕ → Option Bytes → M (Option Entry)
entry_content size bytes =
    if ltb 0 size
    then malloc >>= fill_entry size bytes
    else pure (some (record { size = size; content = none }))

-- The new node of `entry_add` and `entry_inject`; `none` after a failed guard or allocation.
unfoldable pub new_entry : ℕ → Option Bytes → M (Option Entry)
new_entry size bytes =
    if mismatched size bytes
    then pure none
    else do node ← malloc; if not node then pure none else entry_content size bytes

abbrev pub link_last : Field → Option Entry → Bool × Field
link_last f none = (false, f)
link_last f (some e) =
    (true, record f { entries = f.entries ++ e ∷ []; entry_count = increment f.entry_count })

abbrev pub link_first : Field → Option Entry → Bool × Field
link_first f none = (false, f)
link_first f (some e) =
    (true, record f { entries = e ∷ f.entries; entry_count = increment f.entry_count })

-- `srvd_protocol_packet_field_entry_add`: the status and the field
unfoldable pub entry_add : Field → ℕ → Option Bytes → M (Bool × Field)
entry_add f size bytes = do e ← new_entry size bytes; pure (link_last f e)

-- `srvd_protocol_packet_field_entry_inject`
pub entry_inject : Field → ℕ → Option Bytes → M (Bool × Field)
entry_inject f size bytes = do e ← new_entry size bytes; pure (link_first f e)

-- The loop of `srvd_protocol_packet_field_entry_get`; `c` is its `uint16_t` counter.
entry_at : ℕ → ℕ → List Entry → Option Entry
entry_at offset c [] = none
entry_at offset c (e ∷ es) =
    let rest = entry_at offset (increment c) es in if c == offset then some e else rest

-- `srvd_protocol_packet_field_entry_get`
pub entry_get : Field → ℕ → Option Entry
entry_get f offset = if not (ltb offset f.entry_count) then none else entry_at offset 0 f.entries

-- `srvd_protocol_packet_field_entry_get_first`
abbrev pub entry_get_first : Field → Option Entry
entry_get_first f = head? f.entries

-- Value adders.
abbrev pub entry_add_uint32 : Field → ℕ → M (Bool × Field)
entry_add_uint32 f value = entry_add f 4 (some (be32 value))

abbrev pub entry_add_uint16 : Field → ℕ → M (Bool × Field)
entry_add_uint16 f value = entry_add f 2 (some (be16 value))

abbrev pub entry_add_uint8 : Field → ℕ → M (Bool × Field)
entry_add_uint8 f value = entry_add f 1 (some ((value % 256) ∷ []))

abbrev pub entry_inject_uint32 : Field → ℕ → M (Bool × Field)
entry_inject_uint32 f value = entry_inject f 4 (some (be32 value))

abbrev pub entry_inject_uint16 : Field → ℕ → M (Bool × Field)
entry_inject_uint16 f value = entry_inject f 2 (some (be16 value))

abbrev pub entry_inject_uint8 : Field → ℕ → M (Bool × Field)
entry_inject_uint8 f value = entry_inject f 1 (some ((value % 256) ∷ []))

-- Value getters: `none` is the status `SRVD_FALSE`, which leaves the target alone.
pub read_through : Option Bytes → (Bytes → M ℕ) → M (Option ℕ)
read_through none load = undefined
read_through (some bs) load = do v ← load bs; pure (some v)

byte0 : Bytes → M ℕ
byte0 [] = undefined
byte0 (b ∷ bs) = pure b

pub entry_get_uint32 : Entry → M (Option ℕ)
entry_get_uint32 e =
    if not (e.size == 4) then pure none else read_through e.content (λ bs. read32 bs 0)

pub entry_get_uint16 : Entry → M (Option ℕ)
entry_get_uint16 e =
    if not (e.size == 2) then pure none else read_through e.content (λ bs. read16 bs 0)

pub entry_get_uint8 : Entry → M (Option ℕ)
entry_get_uint8 e = if not (e.size == 1) then pure none else read_through e.content byte0
