-- ===== src/Packet/Update/Values.antt =====
-- `field_append` of lib/srvd/libsrvd/protocol/packet.c for any value, the empty one and the arguments
-- that do not fit each other included.
use srvd.Base.{
  ℕ, zero, suc, ◌+◌, ◌≤◌, ◌≡◌, refl, Bool, true, false, not, ◌&&◌, Option, none, some, List, [],
  ◌∷◌, ◌++◌, length, length-take, take, drop, Bool-cases, Option-cases, inl, inr, is_some, ◌==◌,
  if◌then◌else◌, ap, sym, subst, arith,
}
use srvd.Memory.{ok, Bytes, Mem, ◌>>=◌, taken, refused, free, malloc, Ends, ends, bind}
use srvd.Field.{Field, new_entry, entry_content, entry_add}
use srvd.Field.Ownership.{field_finalize-gave_back}
use srvd.Field.View.{Item, field_of, two}
use srvd.Packet.View.{packet_of, index_from, field_get_by_type-index_from, add_locked-append}
use srvd.Packet.Update.{fresh_field, with_entry, add_built, field_append}
use srvd.Packet.Update.View.{fresh, fresh_field-fresh, fresh_field-refused}
use srvd.Packet.Update.Append.{single, three, with_entry-fresh}

-- The value that a size and a data pointer give: none when one of them is zero and the other is not.
abbrev pub value_of : ℕ → Option Bytes → Option Bytes
value_of zero none = some []
value_of zero (some bs) = none
value_of (suc n) none = none
value_of (suc n) (some bs) = some (take (suc n) bs)

-- There are as many bytes behind the pointer as the size says.
abbrev pub Readable : ℕ → Option Bytes → Type 0
Readable size none = Unit {0}
Readable size (some bs) = size ≤ length bs

-- `malloc` returns the blocks for the field and the entry, and for the data if there are any.
abbrev pub has_room : Option Bytes → Mem → Bool
has_room none m = false
has_room (some []) m = two m
has_room (some (b ∷ bs)) m = three m

abbrev pub appended : List Item → ℕ → Option Bytes → List Item
appended its t none = its
appended its t (some v) = its ++ single t v ∷ []

abbrev field_with : ℕ → Option Bytes → Option Field
field_with t none = none
field_with t (some v) = some (field_of (single t v))

-- What is built for a value, before the packet is touched.
abbrev built : ℕ → Option Bytes → Mem → Option Field
built t v m = if has_room v m then field_with t v else none

with_entry-empty :
    (t : ℕ) (m : Mem)
    → Ends (λ o. o ≡ built t (some []) m) ((fresh_field t >>= with_entry 0 none) m)
unfolding with_entry free entry_add new_entry entry_content malloc
with_entry-empty t m = elim (Bool-cases (m.succeeds m.calls)) [
  | inr e ↦ rw (fresh_field-refused t m e, e) (ends refl)
  | inl e ↦ elim (Bool-cases (m.succeeds (m.calls + 1))) [
    | inl e₁ ↦ rw (fresh_field-fresh t m e, e, e₁) (ends refl)
    | inr e₁ ↦
        rw
          (
            fresh_field-fresh t m e,
            e,
            e₁,
            field_finalize-gave_back (field_of (fresh t)) (refused (taken m)),
          )
          (ends refl)
  ]
]

with_entry-mismatched :
    (t size : ℕ) (bytes : Option Bytes) (m : Mem)
    → ((m : Mem) → new_entry size bytes m ≡ ok none m)
    → Ends (λ o. o ≡ none) ((fresh_field t >>= with_entry size bytes) m)
unfolding with_entry free entry_add
with_entry-mismatched t size bytes m refuse = elim (Bool-cases (m.succeeds m.calls)) [
  | inr e ↦ rw (fresh_field-refused t m e) (ends refl)
  | inl e ↦
      rw
        (
          fresh_field-fresh t m e,
          refuse (taken m),
          field_finalize-gave_back (field_of (fresh t)) (taken m),
        )
        (ends refl)
]

with_entry-full :
    (t b n : ℕ) (vs more : Bytes) (m : Mem)
    → n ≡ length vs
    → Ends
        (λ o. o ≡ built t (some (b ∷ vs)) m)
        ((fresh_field t >>= with_entry (suc n) (some (b ∷ (vs ++ more)))) m)
with_entry-full t b n vs more m e = rw e (with_entry-fresh t b vs more m)

pub take-drop : (n : ℕ) (xs : Bytes) → xs ≡ take n xs ++ drop n xs
take-drop zero xs = refl
take-drop (suc n) [] = refl
take-drop (suc n) (x ∷ xs) = ap (◌∷◌ x) (take-drop n xs)

with_entry-Built :
    (t size : ℕ) (bytes : Option Bytes) (m : Mem)
    → Readable size bytes
    → Ends (λ o. o ≡ built t (value_of size bytes) m) ((fresh_field t >>= with_entry size bytes) m)
unfolding new_entry
with_entry-Built t zero none m h = with_entry-empty t m
with_entry-Built t zero (some bs) m h = with_entry-mismatched t 0 (some bs) m (λ m. refl)
with_entry-Built t (suc n) none m h =
    let sized : (suc n == 0) ≡ false = ground arith in
    with_entry-mismatched t (suc n) none m (λ m. rw sized refl)
with_entry-Built t (suc n) (some []) m h = absurd (omega (arith, h))
with_entry-Built t (suc n) (some (b ∷ bs)) m h =
    subst
      (λ xs.
        Ends (λ o. o ≡ built t (some (b ∷ take n bs)) m)
          ((fresh_field t >>= with_entry (suc n) (some (b ∷ xs))) m))
      (sym (take-drop n bs))
      (with_entry-full t b n (take n bs) (drop n bs) m (omega (arith, h, length-take n bs)))

-- `field_append` on every branch, when there are as many bytes behind the pointer as the size says: it
-- succeeds exactly when the size and the pointer fit each other, no field of the packet has the type,
-- and `malloc` returns the blocks, two for an empty value and three for another; then a field of the
-- type with this value is the last one, and otherwise the packet is as before.
pub field_append-value_of :
    (its : List Item) (t size : ℕ) (bytes : Option Bytes) (m : Mem)
    → Readable size bytes
    → Ends
        (λ (status, q).
          (status ≡ (not (is_some (index_from t 0 its)) && has_room (value_of size bytes) m))
          × (q ≡ packet_of (if status then appended its t (value_of size bytes) else its)))
        (field_append (packet_of its) t size bytes m)
unfolding field_append add_built
field_append-value_of its t size bytes m h = elim (Option-cases (index_from t 0 its)) [
  | inr (i, found) ↦
      rw (field_get_by_type-index_from t its, found)
        (ends {a = (false, packet_of its)} (refl, refl))
  | inl absent ↦
      rw (field_get_by_type-index_from t its, absent)
        (bind (with_entry-Built t size bytes m h) λ o m₁ eq. rw eq (added (value_of size bytes) m₁))
]
  where
    added :
        (v : Option Bytes) (m₁ : Mem)
        → Ends
            (λ (status, q).
              (status ≡ has_room v m) × (q ≡ packet_of (if status then appended its t v else its)))
            (add_built (packet_of its) (built t v m) m₁)
    added none m₁ = ends {a = (false, packet_of its)} (refl, refl)
    added (some v) m₁ = elim (Bool-cases (has_room (some v) m)) [
      | inl e ↦
          rw (e, add_locked-append its (single t v))
            (ends {a = (true, packet_of (its ++ single t v ∷ []))} (refl, refl))
      | inr e ↦ rw e (ends {a = (false, packet_of its)} (refl, refl))
    ]
