-- ===== src/Service/Numbers.antt =====
-- `request_uid_get` and `request_entities_get` of lib/srvd/libsrvd/service/nss, and the status code
-- of lib/srvd/libsrvd/service.c, against the abstract packet.
use srvd.Base.{
  ℕ, ◌%◌, ◌^◌, ◌<◌, ◌≡◌, refl, true, Option, none, some, List, [], ◌∷◌, arith, length, ltb, ◌==◌,
  if◌then◌else◌, head?,
}
use srvd.Memory.{Bytes, Mem, ok, pure}
use srvd.Field.{entry_get_first}
use srvd.Field.View.{Item, field_of}
use srvd.Field.Words.{number32, number16, entry_get_uint32-number32, entry_get_uint16-number16}
use srvd.Packet.{Packet}
use srvd.Packet.View.{packet_of, field_at-middle}
use srvd.Serial.Encode.{Counted}
use srvd.Service.{
  response_fail, first_entry, store, read_code, answer, field_through, checked_entry, request_entry,
  number_of, number_get,
}

-- The status code in the first entry of the first field: a failure if there is none, and the old
-- one if it does not have the size of a code.
abbrev pub code_of : ℕ → List Item → ℕ
code_of old [] = response_fail
code_of old (it ∷ its) = elim (head? it.values) [
  | none ↦ response_fail
  | some v ↦ store old (number16 v)
]

first_entry-head :
    (it : Item) (its : List Item)
    → first_entry (packet_of (it ∷ its)) (some 0) ≡ pure (entry_get_first (field_of it))
unfolding first_entry
first_entry-head it its = rw (field_at-middle [] it its)

-- The first entry of the first field as a number, and what the getters make of it.
read_code-head :
    (p : Packet) (old t : ℕ) (vs : List Bytes) (m : Mem)
    → read_code
        (record { packet = p; status = old })
        (entry_get_first (field_of (record { tag = t; values = vs })))
        m
      ≡ ok (record { packet = p; status = code_of old (record { tag = t; values = vs } ∷ []) }) m
unfolding read_code
read_code-head p old t [] m = refl
read_code-head p old t (v ∷ vs) m = rw (entry_get_uint16-number16 v m)

answer-empty :
    (old : ℕ) (m : Mem)
    → answer (record { packet = packet_of []; status = old }) m
      ≡ ok (record { packet = packet_of []; status = response_fail }) m
unfolding answer first_entry read_code
answer-empty old m = refl

pub answer-code_of :
    (old : ℕ) (its : List Item) (m : Mem)
    → answer (record { packet = packet_of its; status = old }) m
      ≡ ok (record { packet = packet_of its; status = code_of old its }) m
unfolding answer
answer-code_of old [] m = answer-empty old m
answer-code_of old (it ∷ its) m =
    rw (first_entry-head it its, read_code-head (packet_of (it ∷ its)) old it.tag it.values m)

-- The number that a request of a type carries: its first field has the type and one entry, of four
-- bytes.
abbrev pub number_in : ℕ → List Item → Option ℕ
number_in t [] = none
number_in t (it ∷ its) = elim it.values [
  | v ∷ [] ↦ if it.tag == t then number32 v else none
  | _ ↦ none
]

checked_entry-head :
    (t k : ℕ) (vs : List Bytes) (m : Mem)
    → length vs < 2 ^ 16
    → number_of (checked_entry t (field_of (record { tag = k; values = vs }))) m
      ≡ ok (number_in t (record { tag = k; values = vs } ∷ [])) m
unfolding checked_entry number_of
checked_entry-head t k [] m fits = ground arith
checked_entry-head t k (v ∷ []) m fits = ground (arith, entry_get_uint32-number32 v m)
checked_entry-head t k (v ∷ w ∷ vs) m fits = ground arith

pub field_through-head :
    (it : Item) (its : List Item)
    → field_through (packet_of (it ∷ its)) (some 0) ≡ pure (field_of it)
unfolding field_through
field_through-head it its = field_at-middle [] it its

-- `request_uid_get` and `request_entities_get` of a packet whose counts fit their words: the number
-- if the request has the type and carries one, and otherwise a failure; they change no memory and
-- run into no undefined behaviour.
pub number_get-number_in :
    (t : ℕ) (its : List Item) (m : Mem)
    → Counted its
    → number_get t (record { packet = packet_of its }) m ≡ ok (number_in t its) m
unfolding number_get request_entry number_of
number_get-number_in t [] m counted = refl
number_get-number_in t (it ∷ its) m (count, (c, cs)) =
    let some_field : ltb 0 (length (it ∷ its) % 2 ^ 16) ≡ true = ground arith in
    rw (some_field, field_through-head it its, checked_entry-head t it.tag it.values m c)
