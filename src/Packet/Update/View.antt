-- ===== src/Packet/Update/View.antt =====
-- The steps of the lookups that add a field in lib/srvd/libsrvd/protocol/packet.c, on abstract
-- packets.
use srvd.Base.{ℕ, ◌≡◌, true, false, none, some, List, [], ◌∷◌, ◌++◌, length, length-map}
use srvd.Memory.{Mem, ok, pure, taken, refused, malloc}
use srvd.Field.View.{Item, field_of}
use srvd.Packet.View.{
  packet_of, slot_of, index_from, field_get_by_type-index_from, add_locked-append,
}
use srvd.Packet.Update.{fresh_field, add_fresh, or_add, field_get_or_add}

abbrev pub fresh : ℕ → Item
fresh t = record { tag = t; values = [] }

pub fresh_field-fresh :
    (t : ℕ) (m : Mem)
    → m.succeeds m.calls ≡ true
    → fresh_field t m ≡ ok (some (field_of (fresh t))) (taken m)
unfolding fresh_field malloc
fresh_field-fresh t m got = rw got

pub fresh_field-refused :
    (t : ℕ) (m : Mem) → m.succeeds m.calls ≡ false → fresh_field t m ≡ ok none (refused m)
unfolding fresh_field malloc
fresh_field-refused t m gone = rw gone

-- A field of the type that is there already is found, and the packet stays as it is.
pub get_or_add-present :
    (its : List Item) (t : ℕ) {i : ℕ}
    → index_from t 0 its ≡ some i
    → field_get_or_add (packet_of its) t ≡ pure (some i, packet_of its)
unfolding field_get_or_add or_add
get_or_add-present its t found = rw (field_get_by_type-index_from t its, found)

pub add_fresh-append :
    (its : List Item) (it : Item)
    → add_fresh (packet_of its) (some (field_of it))
      ≡ pure (some (length its), packet_of (its ++ it ∷ []))
unfolding add_fresh
add_fresh-append its it = rw (add_locked-append its it, length-map slot_of its)

-- Otherwise an empty field of the type comes last.
pub get_or_add-append :
    (its : List Item) (t : ℕ) (m : Mem)
    → index_from t 0 its ≡ none
    → m.succeeds m.calls ≡ true
    → field_get_or_add (packet_of its) t m
      ≡ ok (some (length its), packet_of (its ++ fresh t ∷ [])) (taken m)
unfolding field_get_or_add or_add
get_or_add-append its t m absent got = rw (
  field_get_by_type-index_from t its,
  absent,
  fresh_field-fresh t m got,
  add_fresh-append its (fresh t),
)
