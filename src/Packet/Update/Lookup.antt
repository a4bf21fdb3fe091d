-- ===== src/Packet/Update/Lookup.antt =====
-- `field_get_or_add` and `field_get_or_inject` of lib/srvd/libsrvd/protocol/packet.c on
-- abstract packets.
use srvd.Base.{
  ℕ, ◌≡◌, refl, Bool, Option, none, some, List, [], ◌∷◌, ◌++◌, length, Bool-cases, Option-cases,
  inl, inr, if◌then◌else◌,
}
use srvd.Memory.{Mem, ok, refused, Ends, ends}
use srvd.Packet.{Packet}
use srvd.Field.View.{Item}
use srvd.Packet.View.{packet_of, index_from, field_get_by_type-index_from, inject_locked-cons}
use srvd.Packet.Update.{
  add_fresh, or_add, or_inject, inject_fresh, field_get_or_add, field_get_or_inject,
}
use srvd.Packet.Update.View.{fresh, fresh_field-fresh, fresh_field-refused, add_fresh-append}

-- The field that has the type, or the new one at `at_new` of `new` when there is memory for it.
abbrev pub found_or : Option ℕ → List Item → ℕ → List Item → Bool → Option ℕ × Packet
found_or (some i) its at_new new granted = (some i, packet_of its)
found_or none its at_new new granted =
    if granted then (some at_new, packet_of new) else (none, packet_of its)

add_fresh-none : (p : Packet) (m : Mem) → add_fresh p none m ≡ ok (none, p) m
unfolding add_fresh
add_fresh-none p m = refl

-- `field_get_or_add` finds the first field of the type and leaves the packet alone; without one, an
-- empty field of the type comes last, or there is none and nothing changes when `malloc` fails.
pub field_get_or_add-found_or :
    (its : List Item) (t : ℕ) (m : Mem)
    → Ends
        (λ r.
          r
          ≡ found_or
              (index_from t 0 its)
              its
              (length its)
              (its ++ fresh t ∷ [])
              (m.succeeds m.calls))
        (field_get_or_add (packet_of its) t m)
unfolding field_get_or_add or_add
field_get_or_add-found_or its t m = elim (Option-cases (index_from t 0 its)) [
  | inr (i, found) ↦ rw (field_get_by_type-index_from t its, found) (ends refl)
  | inl absent ↦ elim (Bool-cases (m.succeeds m.calls)) [
    | inl e ↦
        rw
          (
            field_get_by_type-index_from t its,
            absent,
            fresh_field-fresh t m e,
            add_fresh-append its (fresh t),
            e,
          )
          (ends refl)
    | inr e ↦
        rw
          (
            field_get_by_type-index_from t its,
            absent,
            fresh_field-refused t m e,
            add_fresh-none (packet_of its) (refused m),
            e,
          )
          (ends refl)
  ]
]

-- `field_get_or_inject` finds the first field of the type and leaves the packet alone; without one,
-- an empty field of the type comes first, or there is none and nothing changes when `malloc` fails.
pub field_get_or_inject-found_or :
    (its : List Item) (t : ℕ) (m : Mem)
    → Ends
        (λ r. r ≡ found_or (index_from t 0 its) its 0 (fresh t ∷ its) (m.succeeds m.calls))
        (field_get_or_inject (packet_of its) t m)
unfolding field_get_or_inject or_inject inject_fresh
field_get_or_inject-found_or its t m = elim (Option-cases (index_from t 0 its)) [
  | inr (i, found) ↦ rw (field_get_by_type-index_from t its, found) (ends refl)
  | inl absent ↦ elim (Bool-cases (m.succeeds m.calls)) [
    | inl e ↦
        rw
          (
            field_get_by_type-index_from t its,
            absent,
            fresh_field-fresh t m e,
            inject_locked-cons its (fresh t),
            e,
          )
          (ends refl)
    | inr e ↦
        rw (field_get_by_type-index_from t its, absent, fresh_field-refused t m e, e) (ends refl)
  ]
]
