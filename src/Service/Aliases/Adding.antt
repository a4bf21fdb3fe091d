-- ===== src/Service/Aliases/Adding.antt =====
-- `response_member_add` of lib/srvd/libsrvd/service/nss/aliases.c for any member, the empty one and `NULL`
-- included.
use srvd.Base.{
  ℕ, zero, suc, ◌^◌, ◌<◌, ◌≡◌, refl, sym, subst, Bool, true, false, Option, none, some, List, [],
  ◌∷◌, ◌++◌, arith, length, take, drop, length-take, is_some, if◌then◌else◌, Option-cases, inl, inr,
}
use srvd.Memory.{Bytes, Mem, ok, Plenty, Ends, ends, taken}
use srvd.Field.View.{Item}
use srvd.Packet.{entry_add_at}
use srvd.Packet.View.{packet_of, index_from, entry_add_at-zero}
use srvd.Packet.Update.View.{fresh, get_or_add-present, get_or_add-append}
use srvd.Packet.Update.Values.{Readable, take-drop}
use srvd.Service.Aliases.{response_members, member_into, response_member_add}
use srvd.Service.Aliases.Members.{Split, push_to, index_from-Split, response_member_add-push_to}

-- The fields of a response that has a field for the members.
abbrev pub with_members : List Item → List Item
with_members its =
    if is_some (index_from response_members 0 its) then its else its ++ fresh response_members ∷ []

-- The status and the fields.
abbrev pub with_member : Option Bytes → ℕ → List Item → Bool × List Item
with_member none size its = (false, its)
with_member (some member) zero its = (false, with_members its)
with_member (some member) (suc n) its = (true, push_to response_members (take (suc n) member) its)

entry_add_at-refused :
    (t j : ℕ) (bs : Bytes) (its : List Item) (m : Mem)
    → Split t [] 0 j its
    → entry_add_at (packet_of its) j 0 (some bs) m ≡ ok (false, packet_of its) m
entry_add_at-refused t j bs its m s =
    let at_front : j ≡ length s.front = omega (arith, s.place) in
    rw (s.whole, at_front, entry_add_at-zero s.front s.found s.back bs m)

response_member_add-empty :
    (its : List Item) (old : ℕ) (member : Bytes) (m : Mem)
    → Plenty m
    → Ends
        (λ r. r ≡ (false, record { packet = packet_of (with_members its); status = old }))
        (response_member_add (record { packet = packet_of its; status = old }) (some member) 0 m)
unfolding response_member_add member_into
response_member_add-empty its old member m plenty =
    elim (Option-cases (index_from response_members 0 its)) [
      | inl absent ↦
          rw
            (
              get_or_add-append its response_members m absent (plenty m.calls),
              absent,
              entry_add_at-zero its (fresh response_members) [] member (taken m),
            )
            (ends refl)
      | inr (j, there) ↦
          rw
            (
              get_or_add-present its response_members there,
              there,
              entry_add_at-refused response_members j member its m
                  (index_from-Split response_members [] 0 j its there),
            )
            (ends refl)
    ]

response_member_add-null :
    (its : List Item) (old size : ℕ) (m : Mem)
    → Ends
        (λ r. r ≡ (false, record { packet = packet_of its; status = old }))
        (response_member_add (record { packet = packet_of its; status = old }) none size m)
unfolding response_member_add
response_member_add-null its old size m = ends refl

-- With memory at hand, a size that fits the `uint16_t`, and as many bytes behind the pointer: on every
-- branch `response_member_add` ends with this status and these fields. A member that is not empty comes
-- behind the others, in the field for the members, which is added for the first one. A member of no
-- bytes is refused, but the field for the members is there then; for `NULL` the fields stay as they are.
pub response_member_add-with_member :
    (its : List Item) (old size : ℕ) (member : Option Bytes) (m : Mem)
    → size < 2 ^ 16
    → Readable size member
    → Plenty m
    → Ends
        (λ r. r ≡ (
          (with_member member size its).0,
          record { packet = packet_of (with_member member size its).1; status = old },
        ))
        (response_member_add (record { packet = packet_of its; status = old }) member size m)
response_member_add-with_member its old size none m small readable plenty =
    response_member_add-null its old size m
response_member_add-with_member its old zero (some member) m small readable plenty =
    response_member_add-empty its old member m plenty
response_member_add-with_member its old (suc n) (some []) m small readable plenty =
    absurd (omega (arith, readable))
response_member_add-with_member its old (suc n) (some (b ∷ bs)) m small readable plenty =
    let at : length (take n bs) ≡ n = omega (arith, readable, length-take n bs) in
    subst
      (λ xs.
        Ends
          (λ r. r ≡ (
            true,
            record {
              packet = packet_of (push_to response_members (b ∷ take n bs) its);
              status = old;
            },
          ))
          (response_member_add (record { packet = packet_of its; status = old }) (some (b ∷ xs))
            (suc n) m))
      (sym (take-drop n bs))
      (rw at at
        (response_member_add-push_to its old b (take n bs) (drop n bs) m (rw at small) plenty))
