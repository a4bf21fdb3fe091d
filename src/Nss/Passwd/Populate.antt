-- ===== src/Nss/Passwd/Populate.antt =====
-- `_srvd_nss_passwd_populate` of lib/srvd/nss/passwd.c on a whole response, and the bounds of the
-- caller's buffer.
use srvd.Base.{
  ℕ, ◌+◌, ◌≤◌, Bool, ◌≡◌, refl, Option, none, some, List, [], ◌∷◌, arith, leb, leb→le, length,
  length-append, head?, All, Bool-cases, inl, inr,
}
use srvd.Memory.{Bytes, Mem, ok, Ends, ends, string_in, length-string_in}
use srvd.Field.View.{Item}
use srvd.Packet.View.{packet_of}
use srvd.Service.{Response}
use srvd.Nss.{Errno, populated, populate}
use srvd.Nss.Bounds.{Bounded, area_of-kept}
use srvd.Nss.Passwd.{Passwd, Filling, filler}
use srvd.Nss.Passwd.Layout.{
  Laid, filling, Target, text, number, other, target, lay, then_lay, lay_all, in_buffer, Filled,
  populate_fields-lay_all,
}

-- A response with its status field in front, whatever the code of the response.
abbrev pub response_of : Item → List Item → ℕ → Response
response_of first its code = record { packet = packet_of (first ∷ its); status = code }

-- An empty buffer to fill, with what the caller left in the structure.
abbrev pub start_of : Passwd → Bytes → Filling
start_of pwd original = filling original (record { pwd = pwd; written = [] })

-- In a response whose values are not empty, with a buffer that is as large as `bufsize` says: the
-- fields behind the first one, in order, up to the first error, fill the structure, and the strings
-- stand in the buffer one behind the other, each up to its first zero and with a terminator. A string
-- that does not fit is the error ERANGE, a field with no entry the error EINVAL.
pub populate-lay_all :
    (has_gecos : Bool) (bufsize : ℕ) (first : Item) (its : List Item) (code : ℕ) (pwd : Passwd)
    (original : Bytes) (m : Mem)
    → All Filled its
    → bufsize ≤ length original
    → populate (filler has_gecos bufsize) (response_of first its code) (start_of pwd original) m
      ≡ ok
          (populated (
            in_buffer original
              (lay_all bufsize has_gecos its (record { pwd = pwd; written = [] }))))
          m
unfolding populate
populate-lay_all has_gecos bufsize first its code pwd original m filled whole =
    rw
      (populate_fields-lay_all has_gecos bufsize original whole its
        (record { pwd = pwd; written = [] }) m filled)
      refl

lay-bounded :
    (bufsize : ℕ) (t : Target) (v : Option Bytes) (l : Laid)
    → length l.written ≤ bufsize
    → length ((lay bufsize t v l).1.written) ≤ bufsize
lay-bounded bufsize other v l h = h
lay-bounded bufsize (text set) none l h = h
lay-bounded bufsize (text set) (some v) l h =
    elim (Bool-cases (leb (length l.written + length v) bufsize)) [
      | inl e ↦ rw e (
          omega (
            arith,
            leb→le (length l.written + length v) bufsize e,
            length-append l.written (string_in v),
            length-string_in v,
          ))
      | inr e ↦ rw e h
    ]
lay-bounded bufsize (number set) none l h = h
lay-bounded bufsize (number set) (some v) l h = h

lay_all-bounded :
    (bufsize : ℕ) (has_gecos : Bool) (its : List Item) (l : Laid)
    → length l.written ≤ bufsize
    → length ((lay_all bufsize has_gecos its l).1.written) ≤ bufsize
lay_all-bounded bufsize has_gecos [] l h = h
lay_all-bounded bufsize has_gecos (it ∷ its) l h =
    following (lay bufsize (target has_gecos it.tag) (head? it.values) l)
      (lay-bounded bufsize (target has_gecos it.tag) (head? it.values) l h)
      (lay_all-bounded bufsize has_gecos its)
  where
    following :
        (r : Option Errno × Laid)
        → length r.1.written ≤ bufsize
        → ((l : Laid)
            → length l.written ≤ bufsize
            → length ((lay_all bufsize has_gecos its l).1.written) ≤ bufsize)
        → length ((then_lay bufsize (lay_all bufsize has_gecos its) r).1.written) ≤ bufsize
    following (none, l) h rest = rest l h
    following (some errno, l) h rest = h

populated-Bounded :
    (bufsize : ℕ) (original : Bytes) (r : Option Errno × Laid)
    → length r.1.written ≤ bufsize
    → bufsize ≤ length original
    → Bounded bufsize original ((populated (in_buffer original r)).filled.area)
populated-Bounded bufsize original (none, l) h whole =
    let (a, b) = area_of-kept original l.written bufsize h whole in (a, (b, h))
populated-Bounded bufsize original (some errno, l) h whole =
    let (a, b) = area_of-kept original l.written bufsize h whole in (a, (b, h))

-- Whatever the response says, as long as its values are not empty, and with a buffer that is as large
-- as `bufsize` says: filling the structure ends without a fault, also when it fails, and writes nothing
-- behind `bufsize` bytes of the buffer.
pub populate-Ends :
    (has_gecos : Bool) (bufsize : ℕ) (first : Item) (its : List Item) (code : ℕ) (pwd : Passwd)
    (original : Bytes) (m : Mem)
    → All Filled its
    → bufsize ≤ length original
    → Ends
        (λ r. Bounded bufsize original r.filled.area)
        (populate (filler has_gecos bufsize) (response_of first its code) (start_of pwd original) m)
populate-Ends has_gecos bufsize first its code pwd original m filled whole =
    let l : Laid = record { pwd = pwd; written = [] } in
    rw (populate-lay_all has_gecos bufsize first its code pwd original m filled whole) (
      ends {a = populated (in_buffer original (lay_all bufsize has_gecos its l))} (
        populated-Bounded bufsize original (lay_all bufsize has_gecos its l)
          (lay_all-bounded bufsize has_gecos its l (omega arith)) whole))
