-- ===== src/Service/Names.antt =====
-- `request_name_get` of lib/srvd/libsrvd/service/nss against the abstract packet.
use srvd.Base.{
  ℕ, ◌%◌, ◌^◌, ◌<◌, ◌≡◌, ◌≢◌, refl, true, Option, none, some, List, [], ◌∷◌, arith, length, ltb,
  ◌==◌, if◌then◌else◌, All,
}
use srvd.Memory.{
  Bytes, Mem, M, ok, taken, refused, malloc, strncpy-padded, terminate-padded, string_in,
}
use srvd.Field.View.{Item, field_of}
use srvd.Packet.View.{packet_of}
use srvd.Serial.Encode.{Counted}
use srvd.Service.{checked_entry, request_entry, copy_name, name_get}
use srvd.Service.Numbers.{field_through-head}

-- The value that a request of a type carries: its first field has the type and one entry.
abbrev pub value_in : ℕ → List Item → Option Bytes
value_in t [] = none
value_in t (it ∷ its) = elim it.values [ v ∷ [] ↦ if it.tag == t then some v else none | _ ↦ none ]

-- The copy of a value and its block, for the answer of `malloc`.
abbrev pub copied : Option Bytes → M (Option Bytes)
copied none m = ok none m
copied (some v) m =
    if m.succeeds m.calls then ok (some (string_in v)) (taken m) else ok none (refused m)

copy_name-copied :
    (t k : ℕ) (vs : List Bytes) (m : Mem)
    → length vs < 2 ^ 16
    → All (λ v. v ≢ []) vs
    → copy_name (checked_entry t (field_of (record { tag = k; values = vs }))) m
      ≡ copied (value_in t (record { tag = k; values = vs } ∷ [])) m
unfolding checked_entry copy_name malloc
copy_name-copied t k [] m fits good = ground arith
copy_name-copied t k ([] ∷ []) m fits (ne, good) = absurd (ne refl)
copy_name-copied t k ((b ∷ bs) ∷ []) m fits good =
    ground (arith, strncpy-padded (b ∷ bs) (taken m), terminate-padded b bs (taken m))
copy_name-copied t k (v ∷ w ∷ vs) m fits good = ground arith

-- `request_name_get` of a packet whose counts fit their words and whose first field has no empty
-- value: a copy of the string in the value if the request has the type and carries one value and
-- `malloc` returns a block, and otherwise a failure; it runs into no undefined behaviour.
pub name_get-copied :
    (t : ℕ) (it : Item) (its : List Item) (m : Mem)
    → Counted (it ∷ its)
    → All (λ v. v ≢ []) it.values
    → name_get t (record { packet = packet_of (it ∷ its) }) m ≡ copied (value_in t (it ∷ its)) m
unfolding name_get request_entry
name_get-copied t it its m (count, (c, cs)) good =
    let some_field : ltb 0 (length (it ∷ its) % 2 ^ 16) ≡ true = ground arith in
    rw (some_field, field_through-head it its, copy_name-copied t it.tag it.values m c good)
