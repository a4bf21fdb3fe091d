-- ===== src/Serial/Encode.antt =====
-- The wire format of lib/srvd/libsrvd/protocol/serial_packet.c as a function of the abstract
-- packet.
use srvd.Base.{
  ℕ, suc, ◌+◌, ◌*◌, ◌^◌, ◌≤◌, ◌<◌, ◌≡◌, refl, List, [], ◌∷◌, ◌++◌, map, arith, length, drop,
  length-append, append_assoc, append-nil, All, drop-drop, length-drop,
}
use native.Mathlib.Nat.{add-zero}
use srvd.Memory.{Bytes, Mem, ok, pure, write-append, copy, copy-ok, copy-null, be16-mod, be16, be32}
use srvd.Field.View.{Item, entry_of}
use srvd.Packet.View.{slot_of}
use srvd.Serial.{version, entry_sizes, write_entries, write_fields}

abbrev pub encode_values : List Bytes → Bytes
encode_values [] = []
encode_values (v ∷ vs) = be16 (length v) ++ (v ++ encode_values vs)

abbrev pub encode_items : List Item → Bytes
encode_items [] = []
encode_items (it ∷ its) =
    be16 it.tag ++ (be16 (length it.values) ++ (encode_values it.values ++ encode_items its))

abbrev pub encode_header : List Item → Bytes
encode_header its = be16 version ++ (be16 (length its) ++ be32 (length (encode_items its)))

-- The counts of a packet fit their `uint16_t`.
abbrev pub Counted : List Item → Type 0
Counted its = (length its < 2 ^ 16) × All (λ it. length it.values < 2 ^ 16) its

pub entry_sizes-encode :
    (vs : List Bytes) (n : ℕ)
    → entry_sizes (map entry_of vs) n + 2 * length vs ≡ n + length (encode_values vs)
unfolding entry_sizes
entry_sizes-encode [] n = omega arith
entry_sizes-encode ([] ∷ vs) n = omega (arith, entry_sizes-encode vs (n + 0))
entry_sizes-encode ((b ∷ bs) ∷ vs) n =
    omega (arith, entry_sizes-encode vs (n + suc (length bs)), length-append bs (encode_values vs))

copy-entry_of : (v : Bytes) → copy (entry_of v).content (entry_of v).size ≡ pure v
copy-entry_of [] = copy-null
copy-entry_of (b ∷ bs) = copy-ok (b ∷ bs) refl

size-entry_of : (v : Bytes) → (entry_of v).size ≡ length v
size-entry_of [] = refl
size-entry_of (b ∷ bs) = refl

-- Three writes in a row.
regroup :
    (front h v e slack : Bytes)
    → (((front ++ h) ++ v) ++ e) ++ drop (length e) (drop (length v) (drop (length h) slack))
      ≡ (front ++ (h ++ (v ++ e))) ++ drop (length (h ++ (v ++ e))) slack
regroup front h v e slack = simp (append_assoc, length-append, drop-drop)

-- The writes of the entries behind the part `front` that is filled already.
write_entries-encode :
    (vs : List Bytes) (front slack : Bytes) (p : ℕ) (m : Mem)
    → p ≡ length front
    → length (encode_values vs) ≤ length slack
    → write_entries (map entry_of vs) p (front ++ slack) m
      ≡ ok
          (
            p + length (encode_values vs),
            (front ++ encode_values vs) ++ drop (length (encode_values vs)) slack,
          )
          m
unfolding write_entries
write_entries-encode [] front slack p m at room = rw (append-nil front, add-zero p)
write_entries-encode (v ∷ vs) front slack p m at room =
    let h = be16 (length v) in
    let fits : 2 + (length v + length (encode_values vs)) ≤ length slack =
      omega (arith, length-append v (encode_values vs)) in
    let total : p + 2 + length v + length (encode_values vs) ≡ p + length (encode_values (v ∷ vs)) =
      omega (arith, length-append v (encode_values vs)) in
    rw (
      copy-entry_of v,
      size-entry_of v,
      write-append p h front slack at (omega arith),
      write-append (p + 2) v (front ++ h) (drop 2 slack) (omega (arith, length-append front h))
          (omega (arith, length-drop 2 slack)),
      write_entries-encode vs ((front ++ h) ++ v) (drop (length v) (drop 2 slack))
          (p + 2 + length v) m (omega (arith, length-append front h, length-append (front ++ h) v))
          (omega (arith, length-drop 2 slack, length-drop (length v) (drop 2 slack))),
      regroup front h v (encode_values vs) slack,
      total,
    )

regroup₄ :
    (front h c v e slack : Bytes)
    → ((((front ++ h) ++ c) ++ v) ++ e)
        ++ drop (length e) (drop (length v) (drop (length c) (drop (length h) slack)))
      ≡ (front ++ (h ++ (c ++ (v ++ e)))) ++ drop (length (h ++ (c ++ (v ++ e)))) slack
regroup₄ front h c v e slack = simp (append_assoc, length-append, drop-drop)

-- The writes of the fields behind the part `front` that is filled already.
pub write_fields-encode :
    (its : List Item) (front slack : Bytes) (p : ℕ) (m : Mem)
    → p ≡ length front
    → length (encode_items its) ≤ length slack
    → write_fields (map slot_of its) p (front ++ slack) m
      ≡ ok ((front ++ encode_items its) ++ drop (length (encode_items its)) slack) m
unfolding write_fields
write_fields-encode [] front slack p m at room = rw (append-nil front)
write_fields-encode (it ∷ its) front slack p m at room =
    let h = be16 it.tag in
    let c = be16 (length it.values) in
    let vs = encode_values it.values in
    let fits : 4 + (length vs + length (encode_items its)) ≤ length slack =
      omega (arith, length-append vs (encode_items its)) in
    let slack' = drop 2 (drop 2 slack) in
    let left : length slack' + 4 ≡ length slack =
      omega (arith, length-drop 2 (drop 2 slack), length-drop 2 slack) in
    let filled : length ((front ++ h) ++ c) ≡ p + 4 =
      omega (arith, length-append front h, length-append (front ++ h) c) in
    rw (
      be16-mod (length it.values),
      write-append p h front slack at (omega arith),
      write-append (p + 2) c (front ++ h) (drop 2 slack) (omega (arith, length-append front h))
          (omega (arith, length-drop 2 slack)),
      write_entries-encode it.values ((front ++ h) ++ c) slack' (p + 4) m (omega arith)
          (omega arith),
      write_fields-encode its (((front ++ h) ++ c) ++ vs) (drop (length vs) slack')
          (p + 4 + length vs) m (omega (arith, length-append ((front ++ h) ++ c) vs))
          (omega (arith, length-drop (length vs) slack')),
      regroup₄ front h c vs (encode_items its) slack,
    )
