-- ===== src/Packet/Update/Live.antt =====
-- `field_get_or_add` of lib/srvd/libsrvd/protocol/packet.c on packets without freed fields.
use srvd.Base.{ℕ, not, Option, none, some, arith, length}
use srvd.Memory.{Mem, Ends, ends, bind, if-Ends, malloc-Ends}
use srvd.Field.{Field}
use srvd.Packet.{Packet}
use srvd.Packet.Live.{IsLive, InRange, field_get_by_type-Ends, field_add_locked-Ends}
use srvd.Packet.Update.{fresh_field, add_fresh, or_add, field_get_or_add}

-- A pointer to a field of a live packet, or none.
abbrev pub Found : Option ℕ × Packet → Type 0
Found (o, q) = IsLive q × InRange (length q.fields) o

fresh_field-Ends : (t : ℕ) (m : Mem) → Ends (λ o. Unit {0}) (fresh_field t m)
unfolding fresh_field
fresh_field-Ends t m = bind (malloc-Ends m) λ got m₁ _. if-Ends (not got) _ _ m₁ (ends tt) (ends tt)

add_fresh-Ends : (p : Packet) (o : Option Field) (m : Mem) → IsLive p → Ends Found (add_fresh p o m)
unfolding add_fresh
add_fresh-Ends p none m alive = ends (alive, tt)
add_fresh-Ends p (some f) m alive =
    bind (field_add_locked-Ends p f m alive) λ q m₁ (alive', longer). ends (alive', omega arith)

or_add-Ends :
    (p : Packet) (t : ℕ) (o : Option ℕ) (m : Mem)
    → IsLive p
    → InRange (length p.fields) o
    → Ends Found (or_add p t o m)
unfolding or_add
or_add-Ends p t (some i) m alive found = ends (alive, found)
or_add-Ends p t none m alive found =
    bind (fresh_field-Ends t m) λ o m₁ _. add_fresh-Ends p o m₁ alive

-- `field_get_or_add` keeps a packet live, and returns a pointer to one of its fields, if any.
pub field_get_or_add-Ends :
    (p : Packet) (t : ℕ) (m : Mem) → IsLive p → Ends Found (field_get_or_add p t m)
unfolding field_get_or_add
field_get_or_add-Ends p t m alive =
    bind (field_get_by_type-Ends p t m alive) λ o m₁ found. or_add-Ends p t o m₁ alive found
