-- ===== src/Field/Positions.antt =====
-- `srvd_protocol_packet_field_entry_get` of lib/srvd/libsrvd/protocol/packet.c.
use srvd.Base.{
  ℕ, zero, suc, ◌+◌, ◌^◌, ◌≤◌, ◌<◌, ◌≡◌, refl, sym, none, List, [], ◌∷◌, arith, length, get_elem?,
  ltb, Bool-cases, inl, inr,
}
use srvd.Field.{Entry, Field, increment, entry_at, entry_get}

entry_at-get_elem? :
    (es : List Entry) (o c i : ℕ)
    → o ≡ c + i
    → c + length es ≤ 2 ^ 16
    → entry_at o c es ≡ get_elem? es i
unfolding entry_at
entry_at-get_elem? [] o c i at fits = refl
entry_at-get_elem? (e ∷ es) o c zero at fits = ground arith
entry_at-get_elem? (e ∷ []) o c (suc i) at fits = ground arith
entry_at-get_elem? (e ∷ f ∷ es) o c (suc i) at fits =
    let next : increment c ≡ c + 1 = omega arith in
    ground (arith, next, entry_at-get_elem? (f ∷ es) o (c + 1) i)

get_elem?-past : (es : List Entry) (i : ℕ) → length es ≤ i → get_elem? es i ≡ none
get_elem?-past [] i h = refl
get_elem?-past (e ∷ es) zero h = absurd (omega arith)
get_elem?-past (e ∷ es) (suc i) h = get_elem?-past es i (omega arith)

-- While the count of a field agrees with its entries, `entry_get` is the lookup at a position, in
-- range or not.
pub entry_get-get_elem? :
    (f : Field) (i : ℕ)
    → f.entry_count ≡ length f.entries
    → f.entry_count < 2 ^ 16
    → entry_get f i ≡ get_elem? f.entries i
unfolding entry_get
entry_get-get_elem? f i count fits = elim (Bool-cases (ltb i f.entry_count)) [
  | inl e ↦ rw (e) (entry_at-get_elem? f.entries i 0 i (omega arith) (omega arith))
  | inr e ↦ rw (e) (sym (get_elem?-past f.entries i (ground arith)))
]
