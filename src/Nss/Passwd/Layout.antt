-- ===== src/Nss/Passwd/Layout.antt =====
-- What `_srvd_nss_passwd_populate` of lib/srvd/nss/passwd.c makes of the fields of a response: the
-- structure and the strings, one behind the other.
use srvd.Base.{
  ℕ, suc, ◌+◌, ◌≤◌, Bool, ◌&&◌, ◌≡◌, ◌≢◌, refl, Option, none, some, List, [], ◌∷◌, ◌++◌, map, leb,
  ◌==◌, if◌then◌else◌, length, head?, All, Bool-cases, inl, inr,
}
use srvd.Memory.{Bytes, Mem, M, ok, ◌>>=◌, string_in}
use srvd.Field.View.{Item, field_of, entry_of}
use srvd.Field.Words.{number32, entry_get_uint32-number32}
use srvd.Packet.View.{slot_of}
use srvd.Service.{store}
use srvd.Service.Passwd.{
  response_name, response_uid, response_gid, response_dir, response_shell, response_gecos,
}
use srvd.Nss.{Errno, einval, erange, put_first, first_uint32, continue, populate_fields}
use srvd.Nss.Written.{area_of, put_entry-erange, put_entry-fits}
use srvd.Nss.Passwd.{Passwd, Filling, set_string, set_number, fill_string, fill_field}

-- The structure, and the bytes of the strings that its pointers lead to.
pub record Laid : Type 0 where
  pub pwd : Passwd
  pub written : Bytes

abbrev pub filling : Bytes → Laid → Filling
filling original l = record { pwd = l.pwd; area = area_of original l.written }

-- What a field is for: a string to point to, a number, or nothing.
pub data Target : Type 0 where
  text : (ℕ → Passwd → Passwd) → Target
  number : (Option ℕ → Passwd → Passwd) → Target
  other : Target

abbrev pub target : Bool → ℕ → Target
target has_gecos t =
    if t == response_name
    then text (λ at pwd. record pwd { pw_name = some at })
    else if t == response_uid
    then number (λ n pwd. record pwd { pw_uid = store pwd.pw_uid n })
    else if t == response_gid
    then number (λ n pwd. record pwd { pw_gid = store pwd.pw_gid n })
    else if t == response_dir
    then text (λ at pwd. record pwd { pw_dir = some at })
    else if t == response_shell
    then text (λ at pwd. record pwd { pw_shell = some at })
    else if has_gecos && t == response_gecos
    then text (λ at pwd. record pwd { pw_gecos = some at })
    else other

module _ (bufsize : ℕ) where
  -- The first value of a field takes its place, if there is one and it fits.
  abbrev pub lay : Target → Option Bytes → Laid → Option Errno × Laid
  lay other v l = (none, l)
  lay (text set) none l = (some einval, l)
  lay (text set) (some v) l =
      if leb (length l.written + length v) bufsize
      then (none, record { pwd = set (length l.written) l.pwd; written = l.written ++ string_in v })
      else (some erange, l)
  lay (number set) none l = (some einval, l)
  lay (number set) (some v) l = (none, record l { pwd = set (number32 v) l.pwd })

  abbrev pub then_lay : (Laid → Option Errno × Laid) → Option Errno × Laid → Option Errno × Laid
  then_lay rest (none, l) = rest l
  then_lay rest (some errno, l) = (some errno, l)

  -- The fields in order, up to the first error.
  abbrev pub lay_all : Bool → List Item → Laid → Option Errno × Laid
  lay_all has_gecos [] l = (none, l)
  lay_all has_gecos (it ∷ its) l =
      then_lay (lay_all has_gecos its) (lay (target has_gecos it.tag) (head? it.values) l)

abbrev pub in_buffer : Bytes → Option Errno × Laid → Option Errno × Filling
in_buffer original (errno, l) = (errno, filling original l)

-- No value is empty, as in any response from the wire.
abbrev pub Filled : Item → Type 0
Filled it = All (λ v. v ≢ []) it.values

module _ (has_gecos : Bool) (bufsize : ℕ) (original : Bytes)
    (whole : bufsize ≤ length original) where
  fill_string-lay :
      (set : ℕ → Passwd → Passwd) (t : ℕ) (vs : List Bytes) (l : Laid) (m : Mem)
      → All (λ v. v ≢ []) vs
      → fill_string has_gecos bufsize set
          (field_of (record { tag = t; values = vs }))
          (filling original l)
          m
        ≡ ok (in_buffer original (lay bufsize (text set) (head? vs) l)) m
  unfolding fill_string put_first set_string
  fill_string-lay set t [] l m filled = refl
  fill_string-lay set t ([] ∷ vs) l m (ne, filled) = absurd (ne refl)
  fill_string-lay set t ((b ∷ bs) ∷ vs) l m filled =
      elim (Bool-cases (leb (length l.written + suc (length bs)) bufsize)) [
        | inl e ↦ rw (e, put_entry-fits original l.written bufsize b bs m e whole) refl
        | inr e ↦ rw (e, put_entry-erange original l.written bufsize b bs m e) refl
      ]

  uid-lay :
      (vs : List Bytes) (l : Laid) (m : Mem)
      → (first_uint32 l.pwd.pw_uid (head? (map entry_of vs))
            >>= set_number (λ n. record (l.pwd) { pw_uid = n }) (filling original l))
          m
        ≡ ok
            (in_buffer original (
              lay bufsize
                (number (λ n pwd. record pwd { pw_uid = store pwd.pw_uid n }))
                (head? vs)
                l))
            m
  unfolding first_uint32
  uid-lay [] l m = refl
  uid-lay (v ∷ vs) l m = rw (entry_get_uint32-number32 v m) refl

  gid-lay :
      (vs : List Bytes) (l : Laid) (m : Mem)
      → (first_uint32 l.pwd.pw_gid (head? (map entry_of vs))
            >>= set_number (λ n. record (l.pwd) { pw_gid = n }) (filling original l))
          m
        ≡ ok
            (in_buffer original (
              lay bufsize
                (number (λ n pwd. record pwd { pw_gid = store pwd.pw_gid n }))
                (head? vs)
                l))
            m
  unfolding first_uint32
  gid-lay [] l m = refl
  gid-lay (v ∷ vs) l m = rw (entry_get_uint32-number32 v m) refl

  fill_field-lay :
      (t : ℕ) (vs : List Bytes) (l : Laid) (m : Mem)
      → All (λ v. v ≢ []) vs
      → fill_field has_gecos bufsize
          (field_of (record { tag = t; values = vs }))
          (filling original l)
          m
        ≡ ok (in_buffer original (lay bufsize (target has_gecos t) (head? vs) l)) m
  unfolding fill_field
  fill_field-lay t vs l m filled = elim (Bool-cases (t == response_name)) [
    | inl a ↦ rw a (fill_string-lay (λ at pwd. record pwd { pw_name = some at }) t vs l m filled)
    | inr a ↦ elim (Bool-cases (t == response_uid)) [
      | inl b ↦ rw (a, b) (uid-lay vs l m)
      | inr b ↦ elim (Bool-cases (t == response_gid)) [
        | inl c ↦ rw (a, b, c) (gid-lay vs l m)
        | inr c ↦ elim (Bool-cases (t == response_dir)) [
          | inl d ↦
              rw (a, b, c, d)
                (fill_string-lay (λ at pwd. record pwd { pw_dir = some at }) t vs l m filled)
          | inr d ↦ elim (Bool-cases (t == response_shell)) [
            | inl e ↦
                rw (a, b, c, d, e)
                  (fill_string-lay (λ at pwd. record pwd { pw_shell = some at }) t vs l m filled)
            | inr e ↦ elim (Bool-cases (has_gecos && t == response_gecos)) [
              | inl f ↦
                  rw (a, b, c, d, e, f)
                    (fill_string-lay (λ at pwd. record pwd { pw_gecos = some at }) t vs l m filled)
              | inr f ↦ rw (a, b, c, d, e, f) refl
            ]
          ]
        ]
      ]
    ]
  ]

  pub populate_fields-lay_all :
      (its : List Item) (l : Laid) (m : Mem)
      → All Filled its
      → populate_fields (fill_field has_gecos bufsize) (map slot_of its) (filling original l) m
        ≡ ok (in_buffer original (lay_all bufsize has_gecos its l)) m
  unfolding populate_fields continue
  populate_fields-lay_all [] l m filled = refl
  populate_fields-lay_all (it ∷ its) l m (here, filled) =
      rw (fill_field-lay it.tag it.values l m here) (
        following (lay bufsize (target has_gecos it.tag) (head? it.values) l)
          (λ l. populate_fields-lay_all its l m filled))
    where
      rest : Filling → M (Option Errno × Filling)
      rest = populate_fields (fill_field has_gecos bufsize) (map slot_of its)

      following :
          (r : Option Errno × Laid)
          → ((l : Laid)
              → rest (filling original l) m
                ≡ ok (in_buffer original (lay_all bufsize has_gecos its l)) m)
          → continue rest (in_buffer original r) m
            ≡ ok (in_buffer original (then_lay bufsize (lay_all bufsize has_gecos its) r)) m
      following (none, l) h = h l
      following (some errno, l) h = refl
