-- ===== src/Serial/Rejects.antt =====
-- Two kinds of input to `unserialize_body` of lib/srvd/libsrvd/protocol/serial_packet.c: a body
-- that ends inside a field header, and a body with an empty value.
use native.Mathlib.Nat.{zero-add}
use srvd.Base.{
  ℕ, suc, ◌+◌, ◌*◌, ◌^◌, ◌≤◌, ◌<◌, ◌≡◌, refl, false, none, List, [], ◌∷◌, ◌++◌, arith, length, drop,
  length-append, append_assoc, All, le→ltb, lt→leb, rounds, rounds-eq-add, ap, sym, ◌∙◌,
  drop-append, drop-append_of_eq,
}
use srvd.Memory.{
  Bytes, Mem, ok, fault, Plenty, gave_back, and_then-fault, read16, read16-fault, read16-be16, be16,
  taken,
}
use srvd.Field.Ownership.{entries_blocks}
use srvd.Field.View.{Item, field_of}
use srvd.Packet.{Packet, packet_finalize}
use srvd.Packet.View.{packet_of, doomed, index_from, entry_add_at-zero, field_release_at-last}
use srvd.Packet.Freed.{HasFreed, packet_finalize-fault}
use srvd.Packet.Update.View.{fresh}
use srvd.Serial.{SerialPacket, read_entries, field_round, read_fields, next_field, unserialize_body}
use srvd.Serial.Encode.{encode_values, encode_items}
use srvd.Serial.Entries.{
  IsValue, headers_fit, Unique, append_values, grant_values, read_entries-rounds, index_from-none,
  Unique-absent, Unique-front,
}
use srvd.Serial.Unserialize.{
  IsItem, field_round-head, grant_items, Plenty-grant_items, read_fields-rounds,
}

field_round-fault :
    (body_size : ℕ) (body : Bytes) (p : ℕ) (packet : Packet) (m : Mem)
    → p < body_size
    → length body < p + 4
    → field_round body_size body p packet m ≡ fault
unfolding field_round
field_round-fault body_size body p packet m before short =
    rw (lt→leb p body_size before) (
      and_then-fault (read16 body p m) _ λ type m₁. rw (read16-fault body (p + 2) m₁ (omega arith)))

-- With memory at hand, a body that goes on, behind complete fields of different types, with one to
-- three bytes more while the header announces a further field, and no more fields than the first
-- guard lets through: the read of the next field header leaves the buffer.
pub unserialize_body-overread :
    (s : SerialPacket) (its : List Item) (tail : Bytes) (n : ℕ) (m : Mem)
    → s.field_count ≡ length its + suc n
    → s.body_size ≡ length (encode_items its) + length tail
    → s.field_count * 4 ≤ s.body_size
    → (0 < length tail) × (length tail < 4)
    → All IsItem its
    → Unique its
    → Plenty m
    → unserialize_body s (packet_of []) (encode_items its ++ tail) m ≡ fault
unfolding unserialize_body read_fields
unserialize_body-overread s its tail n m count size guard (some_tail, short) good unique plenty =
    let body = encode_items its ++ tail in
    let k : s.field_count ≡ rounds its (suc n) = omega (arith, rounds-eq-add its (suc n)) in
    rw (
      le→ltb (s.field_count * 4) s.body_size guard,
      k,
      read_fields-rounds s.body_size body (suc n) its [] tail 0 m refl (omega arith) good unique
          plenty,
      field_round-fault s.body_size body (0 + length (encode_items its)) (packet_of its)
          (grant_items its m) (omega arith) (omega (arith, length-append (encode_items its) tail)),
    )

encode_items-append :
    (xs ys : List Item) → encode_items (xs ++ ys) ≡ encode_items xs ++ encode_items ys
encode_items-append [] ys = refl
encode_items-append (x ∷ xs) ys = rw (
  encode_items-append xs ys,
  append_assoc (encode_values x.values) (encode_items xs) (encode_items ys),
)

encode_values-append :
    (vs ws : List Bytes) → encode_values (vs ++ ws) ≡ encode_values vs ++ encode_values ws
encode_values-append [] ws = refl
encode_values-append (v ∷ vs) ws =
    rw (encode_values-append vs ws, append_assoc v (encode_values vs) (encode_values ws))

-- The memory after the end of a field.
abbrev pub ended : Item → Mem → Mem
ended it m = gave_back 1 (gave_back (entries_blocks (field_of it).entries) m)

module _ (body_size : ℕ) (body : Bytes) where
  -- The entry loop on an empty value, which stands behind `vs` in the last field.
  read_entries-empty :
      (n : ℕ) (front : List Item) (it : Item) (rest : Bytes) (p : ℕ) (m : Mem)
      → drop p body ≡ be16 0 ++ rest
      → p + 2 ≤ body_size
      → read_entries body_size body (length front) (suc n) p (packet_of (front ++ it ∷ [])) m
        ≡ ok (none, doomed front) (ended it m)
  unfolding read_entries
  read_entries-empty n front it rest p m at room = rw (
    read16-be16 body p 0 (omega arith) at,
    le→ltb (p + 2 + 0) body_size (omega arith),
    entry_add_at-zero front it [] (drop (p + 2) body) m,
    field_release_at-last front it m,
  )

  -- The round for a field with an empty value behind the values `vs`.
  field_round-empty :
      (front : List Item) (t : ℕ) (vs ws : List Bytes) (rest : Bytes) (p : ℕ) (m : Mem)
      → drop p body
        ≡ be16 t ++ (be16 (length (vs ++ [] ∷ ws)) ++ (encode_values (vs ++ [] ∷ ws) ++ rest))
      → p + 4 + length (encode_values (vs ++ [] ∷ ws)) ≤ body_size
      → t < 2 ^ 16
      → length (vs ++ [] ∷ ws) < 2 ^ 16
      → All IsValue vs
      → index_from t 0 front ≡ none
      → Plenty m
      → field_round body_size body p (packet_of front) m
        ≡ ok (none, doomed front) (ended (append_values (fresh t) vs) (grant_values vs (taken m)))
  field_round-empty front t vs ws rest p m at room tag count good absent plenty =
      let all = vs ++ [] ∷ ws in
      let e = encode_values vs in
      let tail = be16 0 ++ (encode_values ws ++ rest) in
      let regroup : encode_values all ++ rest ≡ e ++ tail =
        rw (encode_values-append vs ([] ∷ ws), append_assoc e (encode_values ([] ∷ ws)) rest) in
      let at₄ : drop (p + 4) body ≡ e ++ tail =
        drop-append_of_eq p 4 body (be16 t ++ be16 (length all)) (encode_values all ++ rest) at refl
        ∙ regroup in
      let at' : drop (p + 4 + length e) body ≡ tail =
        drop-append_of_eq (p + 4) (length e) body e tail at₄ refl in
      let long : length (encode_values all) ≡ length e + length (encode_values ([] ∷ ws)) =
        ap length (encode_values-append vs ([] ∷ ws)) ∙ length-append e (encode_values ([] ∷ ws)) in
      let n : length all ≡ rounds vs (suc (length ws)) =
        length-append vs ([] ∷ ws) ∙ sym (rounds-eq-add vs (suc (length ws))) in
      rw (
        field_round-head body_size body front t (length all) (encode_values all ++ rest) p m at
            (omega (arith, headers_fit all)) tag count absent (plenty m.calls),
        n,
        read_entries-rounds body_size body (suc (length ws)) vs front (fresh t) tail (p + 4)
            (taken m) at₄ (omega arith) good plenty,
        read_entries-empty (length ws) front (append_values (fresh t) vs) (encode_values ws ++ rest)
            (p + 4 + length e) (grant_values vs (taken m)) at' (omega arith),
      )

field_headers_fit : (its : List Item) → length its * 4 ≤ length (encode_items its)
field_headers_fit [] = omega arith
field_headers_fit (it ∷ its) =
    omega (arith, field_headers_fit its, length-append (encode_values it.values) (encode_items its))

pub doomed-HasFreed : (its : List Item) → HasFreed (doomed its)
doomed-HasFreed [] = tt
doomed-HasFreed (it ∷ its) = doomed-HasFreed its

abbrev pub with_empty : ℕ → List Bytes → List Bytes → Item
with_empty t vs ws = record { tag = t; values = vs ++ [] ∷ ws }

-- The wire format of a packet with an empty value, as `serialize` writes it, is turned down even
-- with all the memory at hand; the packet then links a freed field, into which `packet_finalize`
-- runs.
pub unserialize_body-empty_value :
    (s : SerialPacket) (its : List Item) (t : ℕ) (vs ws : List Bytes) (more : List Item) (m k : Mem)
    → s.field_count ≡ length (its ++ with_empty t vs ws ∷ more)
    → s.body_size ≡ length (encode_items (its ++ with_empty t vs ws ∷ more))
    → All IsItem its
    → t < 2 ^ 16
    → length (vs ++ [] ∷ ws) < 2 ^ 16
    → All IsValue vs
    → Unique (its ++ with_empty t vs ws ∷ more)
    → Plenty m
    → (unserialize_body s (packet_of []) (encode_items (its ++ with_empty t vs ws ∷ more)) m
        ≡ ok
            (false, doomed its)
            (ended (append_values (fresh t) vs) (grant_values vs (taken (grant_items its m)))))
      × (packet_finalize (doomed its) k ≡ fault)
unfolding unserialize_body read_fields next_field
unserialize_body-empty_value s its t vs ws more m k count size good tag n good_vs unique plenty =
    let all = its ++ with_empty t vs ws ∷ more in
    let body = encode_items all in
    let tail = encode_items (with_empty t vs ws ∷ more) in
    let split : body ≡ encode_items its ++ tail =
      encode_items-append its (with_empty t vs ws ∷ more) in
    let long : length body ≡ length (encode_items its) + length tail =
      ap length split ∙ length-append (encode_items its) tail in
    let rounds_left : length all ≡ rounds its (suc (length more)) =
      length-append its (with_empty t vs ws ∷ more) ∙ sym (rounds-eq-add its (suc (length more))) in
    let start : drop (0 + length (encode_items its)) body ≡ tail =
      rw (zero-add (length (encode_items its)), split) (drop-append (encode_items its) tail) in
    (
      rw (
        count,
        size,
        le→ltb (length all * 4) (length body) (field_headers_fit all),
        rounds_left,
        read_fields-rounds (length body) body (suc (length more)) its [] tail 0 m split
            (omega arith) good (Unique-front its (with_empty t vs ws ∷ more) unique) plenty,
        field_round-empty (length body) body its t vs ws (encode_items more)
            (0 + length (encode_items its)) (grant_items its m) start
            (omega (arith, length-append (encode_values (vs ++ [] ∷ ws)) (encode_items more))) tag n
            good_vs (index_from-none t 0 its (Unique-absent its (with_empty t vs ws) more unique))
            (Plenty-grant_items its m plenty),
      ),
      packet_finalize-fault (doomed its) k (doomed-HasFreed its),
    )
