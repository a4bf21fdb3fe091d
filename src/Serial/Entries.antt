-- ===== src/Serial/Entries.antt =====
-- The loop of lib/srvd/libsrvd/protocol/serial_packet.c over the entries of a field, on the wire
-- format.
use srvd.Base.{
  ℕ, ◌+◌, ◌*◌, ◌^◌, ◌≤◌, ◌<◌, ◌≡◌, ◌≢◌, refl, sym, none, some, List, [], ◌∷◌, ◌++◌, arith, length,
  drop, length-append, append_assoc, append-nil, All, le→ltb, drop-append_of_eq, rounds,
  rounds-zero,
}
use native.Mathlib.Nat.{add-zero}
use srvd.Memory.{Bytes, Mem, ok, taken, Plenty, read16-be16, be16}
use srvd.Field.View.{Item, push_last}
use srvd.Packet.View.{packet_of, index_from, entry_add_at-middle}
use srvd.Serial.{read_entries}
use srvd.Serial.Encode.{encode_values}

abbrev pub IsValue : Bytes → Type 0
IsValue v = (v ≢ []) × (length v < 2 ^ 16)

abbrev pub grant_values : List Bytes → Mem → Mem
grant_values [] m = m
grant_values (v ∷ vs) m = grant_values vs (taken (taken m))

abbrev pub append_values : Item → List Bytes → Item
append_values it vs = record it { values = it.values ++ vs }

module _ (body_size : ℕ) (body : Bytes) where
  pub read_entries-rounds :
      (n : ℕ) (vs : List Bytes) (front : List Item) (it : Item) (rest : Bytes) (p : ℕ) (m : Mem)
      → drop p body ≡ encode_values vs ++ rest
      → p + length (encode_values vs) ≤ body_size
      → All IsValue vs
      → Plenty m
      → read_entries body_size body (length front) (rounds vs n) p (packet_of (front ++ it ∷ [])) m
        ≡ read_entries body_size body
            (length front)
            n
            (p + length (encode_values vs))
            (packet_of (front ++ append_values it vs ∷ []))
            (grant_values vs m)
  unfolding read_entries
  read_entries-rounds n [] front it rest p m at room good plenty =
      rw (add-zero p, append-nil it.values)
  read_entries-rounds n ([] ∷ vs) front it rest p m at room ((ne, _), _) plenty = absurd (ne refl)
  read_entries-rounds n ((b ∷ bs) ∷ vs) front it rest p m at room ((_, small), good) plenty =
      let v = b ∷ bs in
      let more = encode_values vs ++ rest in
      let split : drop p body ≡ be16 (length v) ++ (v ++ more) =
        rw at (rw (append_assoc bs (encode_values vs) rest)) in
      let at₂ : drop (p + 2) body ≡ v ++ more =
        drop-append_of_eq p 2 body (be16 (length v)) (v ++ more) split refl in
      let at' : drop (p + 2 + length v) body ≡ more =
        drop-append_of_eq (p + 2) (length v) body v more at₂ refl in
      let fits : p + 2 + length v + length (encode_values vs)
          ≡ p + length (encode_values (v ∷ vs)) =
        omega (arith, length-append bs (encode_values vs)) in
      rw (
        read16-be16 body p (length v) small split,
        le→ltb (p + 2 + length v) body_size (omega arith),
        at₂,
        entry_add_at-middle front it [] b bs more m plenty,
        read_entries-rounds n vs front (push_last it v) rest (p + 2 + length v) (taken (taken m))
            at' (omega arith) good plenty,
        append_assoc it.values (v ∷ []) vs,
        fits,
      )

  pub read_entries-encode :
      (vs : List Bytes) (front : List Item) (it : Item) (rest : Bytes) (p : ℕ) (m : Mem)
      → drop p body ≡ encode_values vs ++ rest
      → p + length (encode_values vs) ≤ body_size
      → All IsValue vs
      → Plenty m
      → read_entries body_size body (length front) (length vs) p (packet_of (front ++ it ∷ [])) m
        ≡ ok
            (some (p + length (encode_values vs)), packet_of (front ++ append_values it vs ∷ []))
            (grant_values vs m)
  unfolding read_entries
  read_entries-encode vs front it rest p m at room good plenty =
      rw (← rounds-zero vs, read_entries-rounds 0 vs front it rest p m at room good plenty)

pub Plenty-grant_values : (vs : List Bytes) (m : Mem) → Plenty m → Plenty (grant_values vs m)
Plenty-grant_values [] m plenty = plenty
Plenty-grant_values (v ∷ vs) m plenty = Plenty-grant_values vs (taken (taken m)) plenty

-- The headers of the entries are within their encoding.
pub headers_fit : (vs : List Bytes) → length vs * 2 ≤ length (encode_values vs)
headers_fit [] = omega arith
headers_fit (v ∷ vs) = omega (arith, headers_fit vs, length-append v (encode_values vs))

-- No two fields have the same type.
abbrev pub Unique : List Item → Type 0
Unique [] = Unit {0}
Unique (it ∷ its) = All (λ x. x.tag ≢ it.tag) its × Unique its

pub index_from-none :
    (t i : ℕ) (its : List Item) → All (λ x. x.tag ≢ t) its → index_from t i its ≡ none
index_from-none t i [] absent = refl
index_from-none t i (it ∷ its) (ne, absent) = ground (arith, index_from-none t (i + 1) its absent)

All-head_of_append {ℓ} :
    (P : Item → Type ℓ) (front : List Item) (it : Item) (its : List Item)
    → All P (front ++ it ∷ its)
    → P it
All-head_of_append P [] it its (h, _) = h
All-head_of_append P (x ∷ front) it its (_, hs) = All-head_of_append P front it its hs

pub Unique-absent :
    (front : List Item) (it : Item) (its : List Item)
    → Unique (front ++ it ∷ its)
    → All (λ x. x.tag ≢ it.tag) front
Unique-absent [] it its u = tt
Unique-absent (x ∷ front) it its (hs, u) = (
  λ e. All-head_of_append (λ y. y.tag ≢ x.tag) front it its hs (sym e),
  Unique-absent front it its u,
)

All-front {ℓ} : (P : Item → Type ℓ) (xs ys : List Item) → All P (xs ++ ys) → All P xs
All-front P [] ys h = tt
All-front P (x ∷ xs) ys (h, hs) = (h, All-front P xs ys hs)

pub Unique-front : (xs ys : List Item) → Unique (xs ++ ys) → Unique xs
Unique-front [] ys u = tt
Unique-front (x ∷ xs) ys (h, u) = (All-front (λ y. y.tag ≢ x.tag) xs ys h, Unique-front xs ys u)
