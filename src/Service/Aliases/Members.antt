-- ===== src/Service/Aliases/Members.antt =====
-- The members of an alias: `response_member_add` of lib/srvd/libsrvd/service/nss/aliases.c.
use srvd.Base.{
  ℕ, suc, ◌+◌, ◌%◌, ◌^◌, ◌<◌, ◌≡◌, refl, ap, true, none, some, List, [], ◌∷◌, ◌++◌, arith, length,
  ◌==◌, if◌then◌else◌, Bool-cases, Option-cases, inl, inr,
}
use srvd.Memory.{Bytes, Mem, ok, Plenty, Ends, ends, taken}
use srvd.Field.View.{Item, push_last}
use srvd.Packet.{entry_add_at}
use srvd.Packet.View.{packet_of, index_from, entry_add_at-middle}
use srvd.Packet.Update.View.{fresh, get_or_add-present, get_or_add-append}
use srvd.Packet.Update.Append.{single}
use srvd.Service.Aliases.{response_members, member_into, response_member_add}

-- A value more for the first field of a type, which comes last if there is none yet.
abbrev pub push_to : ℕ → Bytes → List Item → List Item
push_to t v [] = single t v ∷ []
push_to t v (it ∷ its) = if it.tag == t then push_last it v ∷ its else it ∷ push_to t v its

-- Where the first field of a type stands.
pub record Split (t : ℕ) (v : Bytes) (i j : ℕ) (its : List Item) : Type 0 where
  pub front : List Item
  pub found : Item
  pub back : List Item
  pub whole : its ≡ front ++ found ∷ back
  pub place : j ≡ i + length front
  pub pushed_there : push_to t v its ≡ front ++ push_last found v ∷ back

pub index_from-Split :
    (t : ℕ) (v : Bytes) (i j : ℕ) (its : List Item)
    → index_from t i its ≡ some j
    → Split t v i j its
index_from-Split t v i j [] e = cc
index_from-Split t v i j (it ∷ its) e = elim (Bool-cases (it.tag == t)) [
  | inl same ↦ record {
    front = [];
    found = it;
    back = its;
    whole = refl;
    place = ground arith;
    pushed_there = rw same;
  }
  | inr other ↦
      let s = index_from-Split t v (i + 1) j its (ground arith) in
      record {
        front = it ∷ s.front;
        found = s.found;
        back = s.back;
        whole = ap (◌∷◌ it) s.whole;
        place = omega (arith, s.place);
        pushed_there = rw other (ap (◌∷◌ it) s.pushed_there);
      }
]

push_to-absent :
    (t : ℕ) (v : Bytes) (i : ℕ) (its : List Item)
    → index_from t i its ≡ none
    → push_to t v its ≡ its ++ single t v ∷ []
push_to-absent t v i [] e = refl
push_to-absent t v i (it ∷ its) e = elim (Bool-cases (it.tag == t)) [
  | inl same ↦ absurd (ground arith)
  | inr other ↦ rw other (ap (◌∷◌ it) (push_to-absent t v (i + 1) its (ground arith)))
]

entry_add_at-Split :
    (t j b : ℕ) (bs more : Bytes) (its : List Item) (m : Mem)
    → Split t (b ∷ bs) 0 j its
    → Plenty m
    → entry_add_at (packet_of its) j (suc (length bs)) (some (b ∷ (bs ++ more))) m
      ≡ ok (true, packet_of (push_to t (b ∷ bs) its)) (taken (taken m))
entry_add_at-Split t j b bs more its m s plenty =
    let at_front : j ≡ length s.front = omega (arith, s.place) in
    rw (
      s.pushed_there,
      s.whole,
      at_front,
      entry_add_at-middle s.front s.found s.back b bs more m plenty,
    )

-- With memory at hand, `response_member_add` puts a member that is not empty, of less than 2 ^ 16 bytes, behind the others, in the field for the members, which it
-- adds for the first one.
pub response_member_add-push_to :
    (its : List Item) (old b : ℕ) (bs more : Bytes) (m : Mem)
    → suc (length bs) < 2 ^ 16
    → Plenty m
    → Ends
        (λ r. r ≡ (
          true,
          record { packet = packet_of (push_to response_members (b ∷ bs) its); status = old },
        ))
        (response_member_add
          (record { packet = packet_of its; status = old })
          (some (b ∷ (bs ++ more)))
          (suc (length bs))
          m)
unfolding response_member_add member_into
response_member_add-push_to its old b bs more m small plenty =
    let size : suc (length bs) % 2 ^ 16 ≡ suc (length bs) = omega arith in
    elim (Option-cases (index_from response_members 0 its)) [
      | inl absent ↦
          rw
            (
              get_or_add-append its response_members m absent (plenty m.calls),
              size,
              entry_add_at-middle its (fresh response_members) [] b bs more (taken m) plenty,
              push_to-absent response_members (b ∷ bs) 0 its absent,
            )
            (ends refl)
      | inr (j, there) ↦
          rw
            (
              get_or_add-present its response_members there,
              size,
              entry_add_at-Split response_members j b bs more its m
                  (index_from-Split response_members (b ∷ bs) 0 j its there) plenty,
            )
            (ends refl)
    ]
