-- ===== src/Field/View.antt =====
-- The abstract field: a type with its values, of which the structs of
-- lib/srvd/libsrvd/protocol/packet.c are the image.
use mathlib.Core.List.{map-append}
use srvd.Base.{
  ℕ, suc, ◌+◌, ◌%◌, ◌^◌, ◌≡◌, refl, Bool, true, false, none, some, List, [], ◌∷◌, ◌++◌, map, arith,
  length, length-append, take-append, length, if◌then◌else◌, ◌&&◌, Bool-cases, inl, inr,
}
use srvd.Memory.{Bytes, Mem, ok, pure, taken, refused, malloc, copy, Plenty, Ends, ends, bind}
use srvd.Field.{Entry, Field, increment, entry_content, fill_entry, new_entry, entry_add, link_last}

-- A field: its type and its values. An empty value is an entry with no data.
pub record Item : Type 0 where
  pub tag : ℕ
  pub values : List Bytes

abbrev pub entry_of : Bytes → Entry
entry_of [] = record { size = 0; content = none }
entry_of (b ∷ bs) = record { size = suc (length bs); content = some (b ∷ bs) }

abbrev pub field_of : Item → Field
field_of it = record {
  entry_count = length it.values % 2 ^ 16;
  entries = map entry_of it.values;
  type = it.tag;
}

pub next_count : (n : ℕ) → increment (n % 2 ^ 16) ≡ (n + 1) % 2 ^ 16
next_count n = omega arith

pub suc_count : (n : ℕ) → (n + 1) % 2 ^ 16 ≡ suc n % 2 ^ 16
suc_count n = omega arith

-- With memory at hand, the first bytes behind the pointer become an entry.
pub new_entry-entry_of :
    (b : ℕ) (bs more : Bytes) (m : Mem)
    → m.succeeds m.calls ≡ true
    → m.succeeds (m.calls + 1) ≡ true
    → new_entry (suc (length bs)) (some (b ∷ (bs ++ more))) m
      ≡ ok (some (entry_of (b ∷ bs))) (taken (taken m))
unfolding new_entry entry_content fill_entry malloc copy
new_entry-entry_of b bs more m node block =
    ground (arith, node, block, take-append bs more, length-append bs more)

abbrev pub push_last : Item → Bytes → Item
push_last it v = record it { values = it.values ++ v ∷ [] }

pub link_last-push_last :
    (it : Item) (v : Bytes)
    → link_last (field_of it) (some (entry_of v)) ≡ (true, field_of (push_last it v))
link_last-push_last it v = rw (
  next_count (length it.values),
  map-append entry_of it.values (v ∷ []),
  length-append it.values (v ∷ []),
)

-- `entry_add` on a pointer to a value with more bytes behind it.
pub entry_add-push_last :
    (it : Item) (b : ℕ) (bs more : Bytes) (m : Mem)
    → Plenty m
    → entry_add (field_of it) (suc (length bs)) (some (b ∷ (bs ++ more))) m
      ≡ ok (true, field_of (push_last it (b ∷ bs))) (taken (taken m))
unfolding entry_add
entry_add-push_last it b bs more m plenty = rw (
  new_entry-entry_of b bs more m (plenty m.calls) (plenty (m.calls + 1)),
  link_last-push_last it (b ∷ bs),
)

-- A pointer to data is refused for the size zero.
pub entry_add-zero : (f : Field) (bs : Bytes) → entry_add f 0 (some bs) ≡ pure (false, f)
unfolding entry_add new_entry
entry_add-zero f bs = refl

-- `malloc` answers the next two calls with a block.
abbrev pub two : Mem → Bool
two m = m.succeeds m.calls && m.succeeds (m.calls + 1)

-- Without, there is no entry.
new_entry-two :
    (b : ℕ) (bs more : Bytes) (m : Mem)
    → Ends
        (λ o. o ≡ (if two m then some (entry_of (b ∷ bs)) else none))
        (new_entry (suc (length bs)) (some (b ∷ (bs ++ more))) m)
unfolding new_entry entry_content fill_entry malloc
new_entry-two b bs more m = elim (Bool-cases (m.succeeds m.calls)) [
  | inr e ↦
      let gone : new_entry (suc (length bs)) (some (b ∷ (bs ++ more))) m ≡ ok none (refused m) =
        ground (arith, e) in
      rw (gone, e) (ends refl)
  | inl e ↦ elim (Bool-cases (m.succeeds (m.calls + 1))) [
    | inr e₁ ↦
        let gone : new_entry (suc (length bs)) (some (b ∷ (bs ++ more))) m
            ≡ ok none (refused (taken m)) =
          ground (arith, e, e₁) in
        rw (gone, e, e₁) (ends refl)
    | inl e₁ ↦ rw (new_entry-entry_of b bs more m e e₁, e, e₁) (ends refl)
  ]
]

-- The status and the field, according to whether `malloc` returned both blocks.
abbrev pub pushed : Item → Bytes → Bool → Bool × Field
pushed it v got = if got then (true, field_of (push_last it v)) else (false, field_of it)

-- `entry_add` of a value puts it last when `malloc` returns the node and the block, and otherwise
-- fails and leaves the field as it is.
pub entry_add-pushed :
    (it : Item) (b : ℕ) (bs more : Bytes) (m : Mem)
    → Ends
        (λ r. r ≡ pushed it (b ∷ bs) (two m))
        (entry_add (field_of it) (suc (length bs)) (some (b ∷ (bs ++ more))) m)
unfolding entry_add
entry_add-pushed it b bs more m = bind (new_entry-two b bs more m) λ o m₁ e.
    elim (Bool-cases (two m)) [
      | inl e₁ ↦ rw (e, e₁) (ends (link_last-push_last it (b ∷ bs)))
      | inr e₁ ↦ rw (e, e₁) (ends refl)
    ]
