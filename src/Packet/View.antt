-- ===== src/Packet/View.antt =====
-- The abstract packet: its fields in order, of which the structs of
-- lib/srvd/libsrvd/protocol/packet.c are the image while no field was freed.
use srvd.Base.{
  ℕ, suc, ◌+◌, ◌%◌, ◌^◌, ◌≡◌, refl, ap, true, false, Option, none, some, List, [], ◌∷◌, ◌++◌, map,
  arith, ◌==◌, if◌then◌else◌, length, get_elem?, set, head?, last?, length-append,
}
use mathlib.Core.List.{map-append}
use srvd.Memory.{Bytes, Mem, ok, pure, taken, free, Plenty, gave_back}
use srvd.Field.View.{
  Item, field_of, push_last, entry_add-push_last, entry_add-zero, next_count, suc_count,
}
use srvd.Field.Ownership.{entries_blocks, field_finalize-gave_back}
use srvd.Packet.{
  Slot, live, freed, Packet, touch, field_add_locked, field_inject_locked, type_loop,
  field_get_by_type, deref_slot, field_at, entry_add_at, set_slot, field_release_at,
}

abbrev pub slot_of : Item → Slot
slot_of it = live (field_of it)

abbrev pub packet_of : List Item → Packet
packet_of its = record { field_count = length its % 2 ^ 16; fields = map slot_of its }

-- The position of the first field of a type, counted from `i`.
abbrev pub index_from : ℕ → ℕ → List Item → Option ℕ
index_from t i [] = none
index_from t i (it ∷ its) = if it.tag == t then some i else index_from t (i + 1) its

abbrev pub Absent : ℕ → List Item → Type 0
Absent t its = (i : ℕ) → index_from t i its ≡ none

type_loop-index_from :
    (t i : ℕ) (its : List Item) → type_loop t i (map slot_of its) ≡ pure (index_from t i its)
unfolding type_loop
type_loop-index_from t i [] = refl
type_loop-index_from t i (it ∷ its) = ground (arith, type_loop-index_from t (i + 1) its)

-- `field_get_by_type` finds the position of the first field of the type, and none when there is no
-- such field; it changes no memory.
pub field_get_by_type-index_from :
    (t : ℕ) (its : List Item) → field_get_by_type (packet_of its) t ≡ pure (index_from t 0 its)
unfolding field_get_by_type
field_get_by_type-index_from t its = type_loop-index_from t 0 its

touch-last : (its : List Item) → touch (last? (map slot_of its)) ≡ pure tt
unfolding touch
touch-last [] = refl
touch-last (a ∷ []) = refl
touch-last (a ∷ b ∷ its) = touch-last (b ∷ its)

pub add_locked-append :
    (its : List Item) (it : Item)
    → field_add_locked (packet_of its) (field_of it) ≡ pure (packet_of (its ++ it ∷ []))
unfolding field_add_locked
add_locked-append its it = rw (
  touch-last its,
  next_count (length its),
  map-append slot_of its (it ∷ []),
  length-append its (it ∷ []),
)

touch-head : (its : List Item) → touch (head? (map slot_of its)) ≡ pure tt
unfolding touch
touch-head [] = refl
touch-head (a ∷ its) = refl

pub inject_locked-cons :
    (its : List Item) (it : Item)
    → field_inject_locked (packet_of its) (field_of it) ≡ pure (packet_of (it ∷ its))
unfolding field_inject_locked
inject_locked-cons its it = rw (touch-head its, next_count (length its), suc_count (length its))

get_elem?-middle :
    (front : List Item) (it : Item) (back : List Item)
    → get_elem? (map slot_of (front ++ it ∷ back)) (length front) ≡ some (slot_of it)
get_elem?-middle [] it back = refl
get_elem?-middle (a ∷ front) it back = get_elem?-middle front it back

set-middle :
    (front : List Item) (it new : Item) (back : List Item)
    → set (map slot_of (front ++ it ∷ back)) (length front) (slot_of new)
      ≡ map slot_of (front ++ new ∷ back)
set-middle [] it new back = refl
set-middle (a ∷ front) it new back = ap (◌∷◌ (slot_of a)) (set-middle front it new back)

length-middle :
    (front : List Item) (it new : Item) (back : List Item)
    → length (front ++ it ∷ back) ≡ length (front ++ new ∷ back)
length-middle [] it new back = refl
length-middle (a ∷ front) it new back = ap suc (length-middle front it new back)

-- A pointer to the field between `front` and `back`.
pub field_at-middle :
    (front : List Item) (it : Item) (back : List Item)
    → field_at (packet_of (front ++ it ∷ back)) (length front) ≡ pure (field_of it)
unfolding field_at deref_slot
field_at-middle front it back = rw (get_elem?-middle front it back)

-- What a write through it leaves.
pub set_slot-middle :
    (front : List Item) (it new : Item) (back : List Item)
    → set_slot (packet_of (front ++ it ∷ back)) (length front) (slot_of new)
      ≡ packet_of (front ++ new ∷ back)
set_slot-middle front it new back =
    rw (set-middle front it new back, length-middle front it new back)

-- `entry_add` through it.
pub entry_add_at-middle :
    (front : List Item) (it : Item) (back : List Item) (b : ℕ) (bs more : Bytes) (m : Mem)
    → Plenty m
    → entry_add_at
        (packet_of (front ++ it ∷ back))
        (length front)
        (suc (length bs))
        (some (b ∷ (bs ++ more)))
        m
      ≡ ok (true, packet_of (front ++ push_last it (b ∷ bs) ∷ back)) (taken (taken m))
unfolding entry_add_at
entry_add_at-middle front it back b bs more m plenty = rw (
  field_at-middle front it back,
  entry_add-push_last it b bs more m plenty,
  set_slot-middle front it (push_last it (b ∷ bs)) back,
)

-- A pointer to data is refused for an entry of size zero.
pub entry_add_at-zero :
    (front : List Item) (it : Item) (back : List Item) (bs : Bytes) (m : Mem)
    → entry_add_at (packet_of (front ++ it ∷ back)) (length front) 0 (some bs) m
      ≡ ok (false, packet_of (front ++ it ∷ back)) m
unfolding entry_add_at
entry_add_at-zero front it back bs m = rw (
  field_at-middle front it back,
  entry_add-zero (field_of it) bs,
  set_slot-middle front it it back,
)

-- The packet after the end of its last field, which stays linked.
abbrev pub doomed : List Item → Packet
doomed its = record {
  field_count = (length its + 1) % 2 ^ 16;
  fields = map slot_of its ++ freed ∷ [];
}

set-last :
    (front : List Item) (it : Item)
    → set (map slot_of (front ++ it ∷ [])) (length front) freed ≡ map slot_of front ++ freed ∷ []
set-last [] it = refl
set-last (a ∷ front) it = ap (◌∷◌ (slot_of a)) (set-last front it)

pub field_release_at-last :
    (front : List Item) (it : Item) (m : Mem)
    → field_release_at (packet_of (front ++ it ∷ [])) (length front) m
      ≡ ok (doomed front) (gave_back 1 (gave_back (entries_blocks (field_of it).entries) m))
unfolding field_release_at free
field_release_at-last front it m = rw (
  field_at-middle front it [],
  field_finalize-gave_back (field_of it) m,
  set-last front it,
  length-append front (it ∷ []),
)
