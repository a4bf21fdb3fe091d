-- ===== src/Nss/Aliases/Layout.antt =====
-- What `_srvd_nss_aliases_populate` of lib/srvd/nss/aliases.c makes of the fields of a response: the
-- structure, and the strings and the table of the members one behind the other; field by field.
use srvd.Base.{
  ℕ, suc, ◌+◌, ◌*◌, ◌%◌, ◌^◌, ◌≤◌, ◌≡◌, ◌≢◌, refl, Option, none, some, List, [], ◌∷◌, ◌++◌,
  append-nil, map, arith, leb, leb→le, ◌==◌, if◌then◌else◌, length, length-append, length-replicate,
  replicate, head?, All, Bool-cases, inl, inr,
}
use srvd.Memory.{Bytes, Mem, ok, ◌>>=◌, string_in}
use srvd.Field.View.{Item, field_of, entry_of}
use srvd.Field.Words.{number8, entry_get_uint8-number8}
use srvd.Service.{store}
use srvd.Service.Aliases.{response_name, response_members, response_local}
use srvd.Nss.{Errno, einval, erange, put_first}
use srvd.Nss.Written.{area_of, write-area_of, put_entry-erange, put_entry-fits}
use srvd.Nss.Aliases.{Aliasent, Filling, set_name, set_local, fill_members}
use srvd.Nss.Aliases.Table.{lay_table, put_members-laid}
use srvd.Nss.Aliases.Members.{Carried}

-- The structure, and the bytes that were written.
pub record Laid : Type 0 where
  pub ae : Aliasent
  pub written : Bytes

abbrev pub filling : Bytes → Laid → Filling
filling original l = record { ae = l.ae; area = area_of original l.written }

abbrev pub in_buffer : Bytes → Option Errno × Laid → Option Errno × Filling
in_buffer original (errno, l) = (errno, filling original l)

abbrev pub lay_name : ℕ → Option Bytes → Laid → Option Errno × Laid
lay_name bufsize none l = (some einval, l)
lay_name bufsize (some v) l =
    if leb (length l.written + length v) bufsize
    then (
      none,
      record {
        ae = record (l.ae) { alias_name = some (length l.written) };
        written = l.written ++ string_in v;
      },
    )
    else (some erange, l)

abbrev pub lay_local : Option Bytes → Laid → Option Errno × Laid
lay_local none l = (some einval, l)
lay_local (some v) l =
    (none, record l { ae = record (l.ae) { alias_local = store l.ae.alias_local (number8 v) } })

abbrev pub then_lay : (Laid → Option Errno × Laid) → Option Errno × Laid → Option Errno × Laid
then_lay rest (none, l) = rest l
then_lay rest (some errno, l) = (some errno, l)

module _ (pointer_size : ℕ) (pointer : ℕ → Bytes) (bufsize : ℕ) where
  -- The table at the end of what was written, and the members behind it.
  abbrev pub lay_members : List Bytes → Laid → Option Errno × Laid
  lay_members vs l =
      let counted = record (l.ae) { alias_members_len = length vs } in
      let size = length vs * pointer_size in
      let (errno, (slots, strings)) =
        lay_table pointer_size pointer bufsize (length l.written + size) vs in
      if leb (length l.written + size) bufsize
      then (
        errno,
        record {
          ae = record counted { alias_members = some (length l.written) };
          written = l.written ++ (slots ++ strings);
        },
      )
      else (some erange, record l { ae = counted })

  abbrev pub lay : Item → Laid → Option Errno × Laid
  lay it l =
      if it.tag == response_name
      then lay_name bufsize (head? it.values) l
      else if it.tag == response_members
      then lay_members it.values l
      else if it.tag == response_local
      then lay_local (head? it.values) l
      else (none, l)

  -- The fields in order, up to the first error.
  abbrev pub lay_all : List Item → Laid → Option Errno × Laid
  lay_all [] l = (none, l)
  lay_all (it ∷ its) l = then_lay (lay_all its) (lay it l)

module _ (pointer_size : ℕ) (pointer : ℕ → Bytes)
    (sized : (p : ℕ) → length (pointer p) ≡ pointer_size) (bufsize : ℕ) (original : Bytes)
    (whole : bufsize ≤ length original) where
  pub name-lay :
      (vs : List Bytes) (l : Laid) (m : Mem)
      → All (λ v. v ≢ []) vs
      → (put_first bufsize (head? (map entry_of vs)) (area_of original l.written)
            >>= set_name (filling original l))
          m
        ≡ ok (in_buffer original (lay_name bufsize (head? vs) l)) m
  unfolding put_first set_name
  name-lay [] l m filled = refl
  name-lay ([] ∷ vs) l m (ne, filled) = absurd (ne refl)
  name-lay ((b ∷ bs) ∷ vs) l m filled =
      elim (Bool-cases (leb (length l.written + suc (length bs)) bufsize)) [
        | inl e ↦ rw (e, put_entry-fits original l.written bufsize b bs m e whole) refl
        | inr e ↦ rw (e, put_entry-erange original l.written bufsize b bs m e) refl
      ]

  pub local-lay :
      (vs : List Bytes) (l : Laid) (m : Mem)
      → set_local (filling original l) (head? (map entry_of vs)) m
        ≡ ok (in_buffer original (lay_local (head? vs) l)) m
  unfolding set_local
  local-lay [] l m = refl
  local-lay (v ∷ vs) l m = rw (entry_get_uint8-number8 v m) refl

  pub members-lay :
      (t : ℕ) (vs : List Bytes) (l : Laid) (m : Mem)
      → Carried (record { tag = t; values = vs })
      → fill_members pointer_size pointer bufsize
          (field_of (record { tag = t; values = vs }))
          (filling original l)
          m
        ≡ ok (in_buffer original (lay_members pointer_size pointer bufsize vs l)) m
  unfolding fill_members
  members-lay t vs l m (filled, few) =
      let count : length vs % 2 ^ 16 ≡ length vs = omega (arith, few) in
      let size = length vs * pointer_size in
      elim (Bool-cases (leb (length l.written + size) bufsize)) [
        | inr e ↦ rw (count, e) refl
        | inl e ↦
            let w = l.written in
            let zeros = replicate {A = ℕ} size 0 in
            let n : length zeros ≡ size = length-replicate {A = ℕ} size 0 in
            let room : length w + length zeros ≤ length original =
              omega (arith, n, whole, leb→le (length w + size) bufsize e) in
            let behind : length w + size ≡ length (w ++ zeros) =
              omega (arith, n, length-append w zeros) in
            let filled_in = rw (append-nil zeros) at (
              put_members-laid pointer_size pointer sized bufsize original whole w [] [] 0 vs m
                filled (omega (arith, few)) (omega arith)) in
            rw (count, e, write-area_of original w zeros m room, behind, filled_in) refl
      ]
