-- ===== src/Nss/Aliases/Outcome.antt =====
-- What `_srvd_nss_aliases_populate` of lib/srvd/nss/aliases.c makes of a whole response.
use srvd.Base.{
  ℕ, ◌≤◌, ◌≡◌, refl, Option, none, some, List, [], ◌∷◌, map, ◌==◌, length, All, Bool-cases, inl,
  inr,
}
use srvd.Memory.{Bytes, Mem, M, ok}
use srvd.Field.View.{Item, field_of}
use srvd.Packet.View.{slot_of, packet_of}
use srvd.Service.Aliases.{response_name, response_members, response_local}
use srvd.Nss.{Errno, continue, populate_fields, populated, populate}
use srvd.Nss.Aliases.{Aliasent, Filling, fill_field, filler}
use srvd.Nss.Aliases.Members.{Carried}
use srvd.Nss.Aliases.Layout.{
  Laid, filling, in_buffer, lay, lay_all, then_lay, name-lay, local-lay, members-lay,
}

module _ (pointer_size : ℕ) (pointer : ℕ → Bytes)
    (sized : (p : ℕ) → length (pointer p) ≡ pointer_size) (bufsize : ℕ) (original : Bytes)
    (whole : bufsize ≤ length original) where
  fill_field-lay :
      (t : ℕ) (vs : List Bytes) (l : Laid) (m : Mem)
      → Carried (record { tag = t; values = vs })
      → fill_field pointer_size pointer bufsize
          (field_of (record { tag = t; values = vs }))
          (filling original l)
          m
        ≡ ok
            (in_buffer original
              (lay pointer_size pointer bufsize (record { tag = t; values = vs }) l))
            m
  unfolding fill_field
  fill_field-lay t vs l m carried = elim (Bool-cases (t == response_name)) [
    | inl a ↦ rw a (name-lay pointer_size pointer sized bufsize original whole vs l m carried.0)
    | inr a ↦ elim (Bool-cases (t == response_members)) [
      | inl b ↦
          rw (a, b) (members-lay pointer_size pointer sized bufsize original whole t vs l m carried)
      | inr b ↦ elim (Bool-cases (t == response_local)) [
        | inl c ↦ rw (a, b, c) (local-lay pointer_size pointer sized bufsize original whole vs l m)
        | inr c ↦ rw (a, b, c) refl
      ]
    ]
  ]

  following :
      (rest : Filling → M (Option Errno × Filling)) (laid : Laid → Option Errno × Laid)
      (r : Option Errno × Laid) (m : Mem)
      → ((l : Laid) → rest (filling original l) m ≡ ok (in_buffer original (laid l)) m)
      → continue rest (in_buffer original r) m ≡ ok (in_buffer original (then_lay laid r)) m
  unfolding continue
  following rest laid (none, l) m h = h l
  following rest laid (some errno, l) m h = refl

  populate_fields-lay_all :
      (its : List Item) (l : Laid) (m : Mem)
      → All Carried its
      → populate_fields
          (fill_field pointer_size pointer bufsize)
          (map slot_of its)
          (filling original l)
          m
        ≡ ok (in_buffer original (lay_all pointer_size pointer bufsize its l)) m
  unfolding populate_fields
  populate_fields-lay_all [] l m carried = refl
  populate_fields-lay_all (it ∷ its) l m (here, carried) =
      rw (fill_field-lay it.tag it.values l m here) (
        following _ (lay_all pointer_size pointer bufsize its)
          (lay pointer_size pointer bufsize it l) m λ l2. populate_fields-lay_all its l2 m carried)

  -- For pointers of `pointer_size` bytes, a buffer that is as large as `bufsize` says, and a response
  -- whose fields have fewer than 2 ^ 16 values, none of them empty: the fields behind the first one,
  -- in order, up to the first error, fill the structure, whose alias_local is 0 when no field sets it.
  -- The name stands in the buffer up to its first zero and with a terminator; a field of members has
  -- the table of their pointers there, and behind it the members, in order, each where its pointer
  -- leads. What does not fit is the error ERANGE, and then the slots of the members that found no room
  -- are zero; a name or an alias_local with no entry is the error EINVAL.
  pub populate-laid_out :
      (first : Item) (its : List Item) (code : ℕ) (ae : Aliasent) (m : Mem)
      → All Carried its
      → populate
          (filler pointer_size pointer bufsize)
          (record { packet = packet_of (first ∷ its); status = code })
          (filling original (record { ae = ae; written = [] }))
          m
        ≡ ok
            (populated (
              in_buffer original (
                lay_all pointer_size pointer bufsize its
                  (record { ae = record ae { alias_local = 0 }; written = [] }))))
            m
  unfolding populate
  populate-laid_out first its code ae m carried =
      rw
        (populate_fields-lay_all its (record { ae = record ae { alias_local = 0 }; written = [] }) m
          carried)
        refl
