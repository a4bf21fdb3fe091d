-- ===== src/Field/Ownership.antt =====
-- The blocks that a field of lib/srvd/libsrvd/protocol/packet.c owns.
use srvd.Base.{ℕ, ◌+◌, ◌≡◌, true, List, [], ◌∷◌, arith, is_some, if◌then◌else◌}
use srvd.Memory.{Mem, ok, free, gave_back}
use srvd.Field.{Entry, Field, free_content, finalize_entries, field_finalize}

-- A node, and a block for the data of an entry that has some.
abbrev pub entry_blocks : Entry → ℕ
entry_blocks e = if is_some e.content then 2 else 1

abbrev pub entries_blocks : List Entry → ℕ
entries_blocks [] = 0
entries_blocks (e ∷ es) = entry_blocks e + entries_blocks es

finalize_entries-gave_back :
    (es : List Entry) (m : Mem) → finalize_entries es m ≡ ok tt (gave_back (entries_blocks es) m)
unfolding finalize_entries free_content free
finalize_entries-gave_back [] m = ground arith
finalize_entries-gave_back (e ∷ es) m = ground (
  arith,
  finalize_entries-gave_back es (gave_back 1 m),
  finalize_entries-gave_back es (gave_back 1 (gave_back 1 m)),
)

-- `field_finalize` gives back each block of the field's entries once.
pub field_finalize-gave_back :
    (f : Field) (m : Mem)
    → field_finalize f m
      ≡ ok
          (true, record { entry_count = 0; entries = []; type = 0 })
          (gave_back (entries_blocks f.entries) m)
unfolding field_finalize
field_finalize-gave_back f m = rw (finalize_entries-gave_back f.entries m)
