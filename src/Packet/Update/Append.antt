-- ===== src/Packet/Update/Append.antt =====
-- `field_append` and `field_insert` of lib/srvd/libsrvd/protocol/packet.c on abstract packets.
use srvd.Base.{
  ℕ, suc, ◌≡◌, refl, Bool, true, false, not, ◌&&◌, none, some, List, [], ◌∷◌, ◌++◌, length,
  Bool-cases, Option-cases, inl, inr, is_some, if◌then◌else◌, ap, sym, ◌∙◌, arith,
}
use srvd.Memory.{Plenty, granted, ok, Bytes, Mem, ◌>>=◌, taken, free, Ends, ends, bind}
use srvd.Field.Ownership.{field_finalize-gave_back}
use srvd.Field.View.{Item, field_of, two, entry_add-pushed, entry_add-push_last}
use srvd.Packet.{Packet}
use srvd.Packet.View.{
  packet_of, index_from, field_get_by_type-index_from, add_locked-append, inject_locked-cons,
}
use srvd.Packet.Update.{
  fresh_field, with_entry, add_built, inject_built, field_append, field_insert,
}
use srvd.Packet.Update.View.{fresh, fresh_field-fresh, fresh_field-refused}

-- The field of one value.
abbrev pub single : ℕ → Bytes → Item
single t v = record { tag = t; values = v ∷ [] }

-- `malloc` answers the next three calls with a block.
abbrev pub three : Mem → Bool
three m = m.succeeds m.calls && two (taken m)

-- The field that is built before the packet is touched: it is there when the three blocks are.
pub with_entry-fresh :
    (t b : ℕ) (bs more : Bytes) (m : Mem)
    → Ends
        (λ o. o ≡ (if three m then some (field_of (single t (b ∷ bs))) else none))
        ((fresh_field t >>= with_entry (suc (length bs)) (some (b ∷ (bs ++ more)))) m)
unfolding with_entry free
with_entry-fresh t b bs more m = elim (Bool-cases (m.succeeds m.calls)) [
  | inr e ↦ rw (fresh_field-refused t m e, e) (ends refl)
  | inl e ↦
      rw (fresh_field-fresh t m e, e)
        (bind (entry_add-pushed (fresh t) b bs more (taken m)) λ r m₁ eq.
          elim (Bool-cases (two (taken m))) [
            | inl e₁ ↦ rw (eq, e₁) (ends refl)
            | inr e₁ ↦ rw (eq, e₁, field_finalize-gave_back (field_of (fresh t)) m₁) (ends refl)
          ])
]

-- The condition for a field of a type: no field has it yet, and `malloc` returns the three blocks.
abbrev pub accepts : List Item → ℕ → Mem → Bool
accepts its t m = not (is_some (index_from t 0 its)) && three m

accepts-absent :
    (its : List Item) (t : ℕ) (m : Mem) → index_from t 0 its ≡ none → accepts its t m ≡ three m
accepts-absent its t m absent = ap (λ o. not (is_some o) && three m) absent

-- The status, and the packet, which is as before on a failure.
abbrev pub Outcome : List Item → List Item → ℕ → Mem → Bool × Packet → Type 0
Outcome its new t m (status, q) =
    (status ≡ accepts its t m) × (q ≡ packet_of (if status then new else its))

-- `field_append` of a value that is not empty puts a field of its type last, exactly when no field has the type and
-- `malloc` returns the three blocks; otherwise it fails and the packet is as before.
pub field_append-Outcome :
    (its : List Item) (t b : ℕ) (bs more : Bytes) (m : Mem)
    → Ends
        (Outcome its (its ++ single t (b ∷ bs) ∷ []) t m)
        (field_append (packet_of its) t (suc (length bs)) (some (b ∷ (bs ++ more))) m)
unfolding field_append add_built
field_append-Outcome its t b bs more m = elim (Option-cases (index_from t 0 its)) [
  | inr (i, found) ↦
      rw (field_get_by_type-index_from t its, found)
        (ends {a = (false, packet_of its)} (ap (λ o. not (is_some o) && three m) (sym found), refl))
  | inl absent ↦
      rw (field_get_by_type-index_from t its, absent)
        (bind (with_entry-fresh t b bs more m) λ o m₁ eq. elim (Bool-cases (three m)) [
          | inl e ↦
              rw (eq, e, add_locked-append its (single t (b ∷ bs)))
                (ends {a = (true, packet_of (its ++ single t (b ∷ bs) ∷ []))}
                  (sym (accepts-absent its t m absent ∙ e), refl))
          | inr e ↦
              rw (eq, e)
                (ends {a = (false, packet_of its)} (sym (accepts-absent its t m absent ∙ e), refl))
        ])
]

-- `field_insert` of a value that is not empty puts a field of its type first, exactly when no field has the type and
-- `malloc` returns the three blocks; otherwise it fails and the packet is as before.
pub field_insert-Outcome :
    (its : List Item) (t b : ℕ) (bs more : Bytes) (m : Mem)
    → Ends
        (Outcome its (single t (b ∷ bs) ∷ its) t m)
        (field_insert (packet_of its) t (suc (length bs)) (some (b ∷ (bs ++ more))) m)
unfolding field_insert inject_built
field_insert-Outcome its t b bs more m = elim (Option-cases (index_from t 0 its)) [
  | inr (i, found) ↦
      rw (field_get_by_type-index_from t its, found)
        (ends {a = (false, packet_of its)} (ap (λ o. not (is_some o) && three m) (sym found), refl))
  | inl absent ↦
      rw (field_get_by_type-index_from t its, absent)
        (bind (with_entry-fresh t b bs more m) λ o m₁ eq. elim (Bool-cases (three m)) [
          | inl e ↦
              rw (eq, e, inject_locked-cons its (single t (b ∷ bs)))
                (ends {a = (true, packet_of (single t (b ∷ bs) ∷ its))}
                  (sym (accepts-absent its t m absent ∙ e), refl))
          | inr e ↦
              rw (eq, e)
                (ends {a = (false, packet_of its)} (sym (accepts-absent its t m absent ∙ e), refl))
        ])
]

-- With memory at hand, and the memory that is left.
pub field_append-append :
    (its : List Item) (t b : ℕ) (bs more : Bytes) (m : Mem)
    → index_from t 0 its ≡ none
    → Plenty m
    → field_append (packet_of its) t (suc (length bs)) (some (b ∷ (bs ++ more))) m
      ≡ ok (true, packet_of (its ++ single t (b ∷ bs) ∷ [])) (granted 3 m)
unfolding field_append add_built with_entry
field_append-append its t b bs more m absent plenty =
    rw
      (
        field_get_by_type-index_from t its,
        absent,
        fresh_field-fresh t m (plenty m.calls),
        entry_add-push_last (fresh t) b bs more (taken m) plenty,
        add_locked-append its (single t (b ∷ bs)),
      )
      (ground arith)

pub field_insert-cons :
    (its : List Item) (t b : ℕ) (bs more : Bytes) (m : Mem)
    → index_from t 0 its ≡ none
    → Plenty m
    → field_insert (packet_of its) t (suc (length bs)) (some (b ∷ (bs ++ more))) m
      ≡ ok (true, packet_of (single t (b ∷ bs) ∷ its)) (granted 3 m)
unfolding field_insert inject_built with_entry
field_insert-cons its t b bs more m absent plenty =
    rw
      (
        field_get_by_type-index_from t its,
        absent,
        fresh_field-fresh t m (plenty m.calls),
        entry_add-push_last (fresh t) b bs more (taken m) plenty,
        inject_locked-cons its (single t (b ∷ bs)),
      )
      (ground arith)
