-- ===== src/Nss/Aliases/Members.antt =====
-- `_srvd_nss_aliases_populate` of lib/srvd/nss/aliases.c and the bounds of the caller's buffer.
use native.Mathlib.Nat.{suc-mul}
use srvd.Base.{
  ℕ, suc, ◌+◌, ◌*◌, ◌%◌, ◌^◌, ◌≤◌, ◌<◌, ◌≡◌, ◌≢◌, refl, Option, none, some, List, [], ◌∷◌, map,
  arith, leb, leb→le, ◌==◌, length, length-replicate, replicate, head?, All, Bool-cases, inl, inr,
}
use srvd.Memory.{Bytes, Mem, M, ◌>>=◌, Ends, ends, bind, if-Ends}
use srvd.Field.View.{Item, field_of, entry_of}
use srvd.Field.Words.{entry_get_uint8-number8}
use srvd.Service.Aliases.{response_name, response_members, response_local}
use srvd.Nss.{Errno, Area, Put, put_first}
use srvd.Nss.Bounds.{Bounded, write-Bounded, put_entry-Ends}
use srvd.Nss.Aliases.{
  Filling, set_name, set_local, link_member, next_member, put_members, fill_members, fill_field,
}

-- No value is empty, and the counter of the entries did not wrap.
abbrev pub Carried : Item → Type 0
Carried it = All (λ v. v ≢ []) it.values × (length it.values < 2 ^ 16)

module _ (pointer_size : ℕ) (pointer : ℕ → Bytes)
    (sized : (p : ℕ) → length (pointer p) ≡ pointer_size) (bufsize : ℕ) (original : Bytes)
    (whole : bufsize ≤ length original) where
  link_member-Ends :
      (members i : ℕ) (r : Put) (m : Mem)
      → members + i * pointer_size + pointer_size ≤ bufsize
      → Bounded bufsize original r.1.1
      → Ends
          (λ a. Bounded bufsize original a.1)
          (link_member pointer_size pointer bufsize members i r m)
  unfolding link_member
  link_member-Ends members i (some errno, (at, area)) m room bounded = ends bounded
  link_member-Ends members i (none, (at, area)) m room bounded =
      bind
        (write-Bounded (members + i * pointer_size) (pointer at) original area bufsize m
          (omega (arith, sized at, room)) whole bounded)
        λ buffer m2 h. ends (h.0, (h.1, bounded.1.1))

  -- A member, and then the others.
  following-Ends :
      (rest : Area → M (Option Errno × Area)) (r : Option Errno × Area) (m : Mem)
      → Bounded bufsize original r.1
      → ((a : Area) (m : Mem)
          → Bounded bufsize original a
          → Ends (λ a. Bounded bufsize original a.1) (rest a m))
      → Ends (λ a. Bounded bufsize original a.1) (next_member pointer_size pointer bufsize rest r m)
  unfolding next_member
  following-Ends rest (none, area) m h others = others area m h
  following-Ends rest (some errno, area) m h others = ends h

  put_members-Ends :
      (members i : ℕ) (vs : List Bytes) (a : Area) (m : Mem)
      → All (λ v. v ≢ []) vs
      → i + length vs < 2 ^ 16
      → members + i * pointer_size + length vs * pointer_size ≤ bufsize
      → Bounded bufsize original a
      → Ends
          (λ a. Bounded bufsize original a.1)
          (put_members pointer_size pointer bufsize members i (map entry_of vs) a m)
  unfolding put_members
  put_members-Ends members i [] a m filled few room bounded = ends bounded
  put_members-Ends members i ([] ∷ vs) a m (ne, filled) few room bounded = absurd (ne refl)
  put_members-Ends members i ((b ∷ bs) ∷ vs) a m (ne, filled) few room bounded =
      let j : (i + 1) % 2 ^ 16 ≡ suc i = omega (arith, few) in
      let next : members + suc i * pointer_size + length vs * pointer_size ≤ bufsize =
        omega (arith, room, suc-mul i pointer_size, suc-mul (length vs) pointer_size) in
      bind
        (bind (put_entry-Ends bufsize original b bs a m whole bounded)
          λ r m2 h. link_member-Ends members i r m2 (omega (arith, next, suc-mul i pointer_size)) h)
        λ r m2 h. following-Ends _ r m2 h λ area m3 k.
          rw j (put_members-Ends members (suc i) vs area m3 filled (omega (arith, few)) next k)

  fill_members-Ends :
      (t : ℕ) (vs : List Bytes) (s : Filling) (m : Mem)
      → Carried (record { tag = t; values = vs })
      → Bounded bufsize original s.area
      → Ends
          (λ r. Bounded bufsize original r.1.area)
          (fill_members pointer_size pointer bufsize
            (field_of (record { tag = t; values = vs }))
            s
            m)
  unfolding fill_members
  fill_members-Ends t vs s m (filled, few) bounded =
      let count : length vs % 2 ^ 16 ≡ length vs = omega (arith, few) in
      let size = length vs * pointer_size in
      elim (Bool-cases (leb (s.area.bi + size) bufsize)) [
        | inr e ↦ rw (count, e) (ends bounded)
        | inl e ↦
            let room : s.area.bi + size ≤ bufsize = leb→le (s.area.bi + size) bufsize e in
            rw (count, e)
              (bind
                (write-Bounded s.area.bi (replicate size 0) original s.area bufsize m
                  (omega (arith, room, length-replicate {A = ℕ} size 0)) whole bounded)
                λ buffer m2 h.
                  bind
                    (put_members-Ends s.area.bi 0 vs
                      (record { buffer = buffer; bi = s.area.bi + size }) m2 filled
                      (omega (arith, few)) (omega (arith, room)) (h.0, (h.1, room)))
                    λ r m3 k. ends k)
      ]

  fill_name-Ends :
      (vs : List Bytes) (s : Filling) (m : Mem)
      → All (λ v. v ≢ []) vs
      → Bounded bufsize original s.area
      → Ends
          (λ r. Bounded bufsize original r.1.area)
          ((put_first bufsize (head? (map entry_of vs)) s.area >>= set_name s) m)
  unfolding put_first set_name
  fill_name-Ends [] s m filled bounded = ends bounded
  fill_name-Ends ([] ∷ vs) s m (ne, filled) bounded = absurd (ne refl)
  fill_name-Ends ((b ∷ bs) ∷ vs) s m filled bounded =
      bind (put_entry-Ends bufsize original b bs s.area m whole bounded) λ r m2 h. named r m2 h
    where
      named :
          (r : Put) (m : Mem)
          → Bounded bufsize original r.1.1
          → Ends (λ r. Bounded bufsize original r.1.area) (set_name s r m)
      named (none, (at, area)) m h = ends h
      named (some errno, (at, area)) m h = ends bounded

  set_local-Ends :
      (vs : List Bytes) (s : Filling) (m : Mem)
      → Bounded bufsize original s.area
      → Ends (λ r. Bounded bufsize original r.1.area) (set_local s (head? (map entry_of vs)) m)
  unfolding set_local
  set_local-Ends [] s m bounded = ends bounded
  set_local-Ends (v ∷ vs) s m bounded = rw (entry_get_uint8-number8 v m) (ends bounded)

  pub fill_field-Ends :
      (it : Item) (s : Filling) (m : Mem)
      → Carried it
      → Bounded bufsize original s.area
      → Ends
          (λ r. Bounded bufsize original r.1.area)
          (fill_field pointer_size pointer bufsize (field_of it) s m)
  unfolding fill_field
  fill_field-Ends it s m carried bounded =
      if-Ends (it.tag == response_name) _ _ m (fill_name-Ends it.values s m carried.0 bounded) (
        if-Ends (it.tag == response_members) _ _ m
          (fill_members-Ends it.tag it.values s m carried bounded)
          (if-Ends (it.tag == response_local) _ _ m (set_local-Ends it.values s m bounded)
            (ends bounded)))
