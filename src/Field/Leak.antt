-- ===== src/Field/Leak.antt =====
-- The allocations of `srvd_protocol_packet_field_entry_add` of lib/srvd/libsrvd/protocol/packet.c.
use srvd.Base.{
  ℕ, ◌+◌, ◌≡◌, Bool, not, ◌&&◌, Option, none, some, List, [], ◌∷◌, ◌++◌, arith, ltb, if◌then◌else◌,
}
use srvd.Memory.{Bytes, Mem, ok, and_then-eq-ok, malloc, copy}
use srvd.Field.{
  Entry, Field, mismatched, fill_entry, entry_content, new_entry, entry_add, link_last,
}
use srvd.Field.Ownership.{entry_blocks, entries_blocks}

-- `malloc` gives the node and then refuses the block for the data.
abbrev pub half_made : ℕ → Option Bytes → Mem → Bool
half_made size bytes m =
    not (mismatched size bytes)
    && m.succeeds m.calls
    && (ltb 0 size && not (m.succeeds (m.calls + 1)))

abbrev new_blocks : Option Entry → ℕ
new_blocks none = 0
new_blocks (some e) = entry_blocks e

new_entry-allocated :
    (size : ℕ) (bytes : Option Bytes) (m m' : Mem) (o : Option Entry)
    → new_entry size bytes m ≡ ok o m'
    → m'.allocated ≡ m.allocated + new_blocks o + (if half_made size bytes m then 1 else 0)
unfolding new_entry entry_content fill_entry malloc copy
new_entry-allocated size none m m' o h = ground arith
new_entry-allocated size (some bs) m m' o h = ground arith

entries_blocks-append :
    (es fs : List Entry) → entries_blocks (es ++ fs) ≡ entries_blocks es + entries_blocks fs
entries_blocks-append [] fs = omega arith
entries_blocks-append (e ∷ es) fs = omega (arith, entries_blocks-append es fs)

link_last-blocks :
    (f : Field) (o : Option Entry)
    → entries_blocks (link_last f o).1.entries ≡ entries_blocks f.entries + new_blocks o
link_last-blocks f none = omega arith
link_last-blocks f (some e) = omega (arith, entries_blocks-append f.entries (e ∷ []))

-- Every block that `entry_add` got from `malloc` is owned by the field afterwards, but for one: the
-- node of the entry, exactly when `malloc` gives the node and then refuses the block for the data.
pub entry_add-allocated :
    (f g : Field) (size : ℕ) (bytes : Option Bytes) (m m' : Mem) (status : Bool)
    → entry_add f size bytes m ≡ ok (status, g) m'
    → m'.allocated + entries_blocks f.entries
      ≡ m.allocated + entries_blocks g.entries + (if half_made size bytes m then 1 else 0)
unfolding entry_add
entry_add-allocated f g size bytes m m' status h =
    let (o, m₁, e, e') = and_then-eq-ok (new_entry size bytes m) _ h in
    ground (arith, new_entry-allocated size bytes m m₁ o e, link_last-blocks f o)
