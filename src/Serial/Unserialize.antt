-- ===== src/Serial/Unserialize.antt =====
-- `unserialize_header` and `unserialize_body` of lib/srvd/libsrvd/protocol/serial_packet.c on the
-- wire format.
use srvd.Base.{
  ℕ, ◌+◌, ◌*◌, ◌^◌, ◌≤◌, ◌<◌, ◌≡◌, refl, true, none, some, List, [], ◌∷◌, ◌++◌, arith, length, drop,
  length-append, append_assoc, append-nil, All, le→ltb, lt→leb, drop-append_of_eq, rounds,
  rounds-zero,
}
use native.Mathlib.Nat.{add-zero}
use srvd.Memory.{Bytes, Mem, ok, taken, Plenty, read16-be16, read32-be32, be16}
use srvd.Field.View.{Item}
use srvd.Packet.View.{packet_of, index_from}
use srvd.Packet.Update.View.{fresh, get_or_add-append}
use srvd.Serial.{
  version, header_size, SerialPacket, unserialize_header, read_entries, read_field, field_round,
  read_fields, next_field, unserialize_body,
}
use srvd.Serial.Encode.{encode_values, encode_items, encode_header}
use srvd.Serial.Entries.{
  IsValue, grant_values, read_entries-encode, Plenty-grant_values, headers_fit, Unique,
  index_from-none, Unique-absent,
}

-- The header that `serialize` writes for a packet gives its count of fields and its sizes back, when
-- the count is below 2 ^ 16 and the size of the body below 2 ^ 32.
pub unserialize_header-encode_header :
    (s : SerialPacket) (its : List Item) (m : Mem)
    → length its < 2 ^ 16
    → length (encode_items its) < 2 ^ 32
    → unserialize_header s (encode_header its) m
      ≡ ok
          (
            true,
            record s {
              field_count = length its;
              body_size = length (encode_items its);
              size = header_size + length (encode_items its);
            },
          )
          m
unfolding unserialize_header
unserialize_header-encode_header s its m counted small =
    let header = encode_header its in
    rw (
      read16-be16 header 0 version (omega arith) refl,
      read16-be16 header 2 (length its) counted refl,
      read32-be32 header 4 (length (encode_items its)) small refl,
    )

-- A field that the wire format can carry: nothing is empty or too long for its `uint16_t`.
abbrev pub IsItem : Item → Type 0
IsItem it = (it.tag < 2 ^ 16) × (length it.values < 2 ^ 16) × All IsValue it.values

module _ (body_size : ℕ) (body : Bytes) where
  -- A round up to the loop over the entries, for a type that is new to the packet.
  pub field_round-head :
      (front : List Item) (t n : ℕ) (rest : Bytes) (p : ℕ) (m : Mem)
      → drop p body ≡ be16 t ++ (be16 n ++ rest)
      → p + 4 + n * 2 ≤ body_size
      → t < 2 ^ 16
      → n < 2 ^ 16
      → index_from t 0 front ≡ none
      → m.succeeds m.calls ≡ true
      → field_round body_size body p (packet_of front) m
        ≡ read_entries body_size body
            (length front)
            n
            (p + 4)
            (packet_of (front ++ fresh t ∷ []))
            (taken m)
  unfolding field_round read_field
  field_round-head front t n rest p m at room tag count absent got =
      let at₂ = drop-append_of_eq p 2 body (be16 t) (be16 n ++ rest) at refl in
      rw (
        lt→leb p body_size (omega arith),
        read16-be16 body p t tag at,
        read16-be16 body (p + 2) n count at₂,
        le→ltb (p + 4 + n * 2) body_size room,
        get_or_add-append front t m absent got,
      )

  field_round-encode :
      (front : List Item) (it : Item) (rest : Bytes) (p : ℕ) (m : Mem)
      → drop p body ≡ be16 it.tag ++ (be16 (length it.values) ++ (encode_values it.values ++ rest))
      → p + 4 + length (encode_values it.values) ≤ body_size
      → IsItem it
      → index_from it.tag 0 front ≡ none
      → Plenty m
      → field_round body_size body p (packet_of front) m
        ≡ ok
            (some (p + 4 + length (encode_values it.values)), packet_of (front ++ it ∷ []))
            (grant_values it.values (taken m))
  field_round-encode front it rest p m at room (tag, count, good) absent plenty =
      let vs = it.values in
      let at₄ =
        drop-append_of_eq p 4 body (be16 it.tag ++ be16 (length vs)) (encode_values vs ++ rest) at
          refl in
      rw (
        field_round-head front it.tag (length vs) (encode_values vs ++ rest) p m at
            (omega (arith, headers_fit vs)) tag count absent (plenty m.calls),
        read_entries-encode body_size body vs front (fresh it.tag) rest (p + 4) (taken m) at₄ room
            good plenty,
      )

abbrev pub grant_items : List Item → Mem → Mem
grant_items [] m = m
grant_items (it ∷ its) m = grant_items its (grant_values it.values (taken m))

module _ (body_size : ℕ) (body : Bytes) where
  pub read_fields-rounds :
      (n : ℕ) (its front : List Item) (rest : Bytes) (p : ℕ) (m : Mem)
      → drop p body ≡ encode_items its ++ rest
      → p + length (encode_items its) ≤ body_size
      → All IsItem its
      → Unique (front ++ its)
      → Plenty m
      → read_fields body_size body (rounds its n) p (packet_of front) m
        ≡ read_fields body_size body n
            (p + length (encode_items its))
            (packet_of (front ++ its))
            (grant_items its m)
  unfolding read_fields next_field
  read_fields-rounds n [] front rest p m at room good unique plenty =
      rw (append-nil front, add-zero p)
  read_fields-rounds n (it ∷ its) front rest p m at room (good, goods) unique plenty =
      let e = encode_values it.values in
      let more = encode_items its ++ rest in
      let q = p + 4 + length e in
      let split : drop p body ≡ be16 it.tag ++ (be16 (length it.values) ++ (e ++ more)) =
        rw at (rw (append_assoc e (encode_items its) rest)) in
      let at₄ : drop (p + 4) body ≡ e ++ more =
        drop-append_of_eq p 4 body (be16 it.tag ++ be16 (length it.values)) (e ++ more) split
          refl in
      let after : drop q body ≡ more = drop-append_of_eq (p + 4) (length e) body e more at₄ refl in
      let end : q + length (encode_items its) ≡ p + length (encode_items (it ∷ its)) =
        omega (arith, length-append e (encode_items its)) in
      let absent = index_from-none it.tag 0 front (Unique-absent front it its unique) in
      rw (
        field_round-encode body_size body front it more p m split
            (omega (arith, length-append e (encode_items its))) good absent plenty,
        read_fields-rounds n its (front ++ it ∷ []) rest q (grant_values it.values (taken m)) after
            (omega (arith, length-append e (encode_items its))) goods
            (rw (append_assoc front (it ∷ []) its) unique)
            (Plenty-grant_values it.values (taken m) plenty),
        append_assoc front (it ∷ []) its,
        end,
      )

  read_fields-encode :
      (its front : List Item) (rest : Bytes) (p : ℕ) (m : Mem)
      → drop p body ≡ encode_items its ++ rest
      → p + length (encode_items its) ≤ body_size
      → All IsItem its
      → Unique (front ++ its)
      → Plenty m
      → read_fields body_size body (length its) p (packet_of front) m
        ≡ ok (true, packet_of (front ++ its)) (grant_items its m)
  unfolding read_fields
  read_fields-encode its front rest p m at room good unique plenty =
      rw (← rounds-zero its, read_fields-rounds 0 its front rest p m at room good unique plenty)

field_headers_fit : (its : List Item) → length its * 4 ≤ length (encode_items its)
field_headers_fit [] = omega arith
field_headers_fit (it ∷ its) =
    omega (arith, field_headers_fit its, length-append (encode_values it.values) (encode_items its))

-- With memory at hand, a body in the wire format, with anything behind it, is accepted when the
-- header announced its count and size, its fields fit their words and have no empty value, and no
-- two fields, old or new, have the same type: the fields come behind those that the packet has, and
-- the allocations are those of the new fields and values.
pub unserialize_body-encode_items :
    (s : SerialPacket) (front its : List Item) (rest : Bytes) (m : Mem)
    → s.field_count ≡ length its
    → s.body_size ≡ length (encode_items its)
    → All IsItem its
    → Unique (front ++ its)
    → Plenty m
    → unserialize_body s (packet_of front) (encode_items its ++ rest) m
      ≡ ok (true, packet_of (front ++ its)) (grant_items its m)
unfolding unserialize_body
unserialize_body-encode_items s front its rest m count size good unique plenty = rw (
  count,
  size,
  le→ltb (length its * 4) (length (encode_items its)) (field_headers_fit its),
  read_fields-encode (length (encode_items its)) (encode_items its ++ rest) its front rest 0 m refl
      (omega arith) good unique plenty,
)

pub Plenty-grant_items : (its : List Item) (m : Mem) → Plenty m → Plenty (grant_items its m)
Plenty-grant_items [] m plenty = plenty
Plenty-grant_items (it ∷ its) m plenty =
    Plenty-grant_items its _ (Plenty-grant_values it.values (taken m) plenty)
