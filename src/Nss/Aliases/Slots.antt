-- ===== src/Nss/Aliases/Slots.antt =====
-- A table of pointers in the caller's buffer, byte by byte: the slots that are free, and a pointer that
-- takes the first of them, as in `_srvd_nss_aliases_populate` of lib/srvd/nss/aliases.c.
use srvd.Base.{
  ℕ, zero, suc, ◌+◌, ◌≡◌, refl, ap, ◌++◌, append_assoc, arith, length, length-append, replicate,
  drop, drop-append, suc_add,
}
use srvd.Memory.{Bytes, Mem, ok, write, write-append}
use srvd.Nss.Written.{area_of}

pub replicate-add : (m n a : ℕ) → replicate (m + n) a ≡ replicate m a ++ replicate n a
replicate-add zero n a = ap (λ k. replicate k a) (omega arith)
replicate-add (suc m) n a = rw (suc_add m n, replicate-add m n a) refl

pub length-slot :
    (w t z p rest : Bytes)
    → length p ≡ length z
    → length (w ++ ((t ++ p) ++ rest)) ≡ length (w ++ (t ++ (z ++ rest)))
length-slot w t z p rest same = omega (
  arith,
  same,
  length-append w ((t ++ p) ++ rest),
  length-append (t ++ p) rest,
  length-append t p,
  length-append w (t ++ (z ++ rest)),
  length-append t (z ++ rest),
  length-append z rest,
)

pub behind_slots :
    (w t a z s str : Bytes)
    → (w ++ (t ++ ((a ++ z) ++ s))) ++ str ≡ w ++ (t ++ (a ++ (z ++ (s ++ str))))
behind_slots w t a z s str =
    rw
      (
        append_assoc w (t ++ ((a ++ z) ++ s)) str,
        append_assoc t ((a ++ z) ++ s) str,
        append_assoc (a ++ z) s str,
        append_assoc a z (s ++ str),
      )
      refl

-- A pointer takes its slot in the table.
pub write-slot :
    (w t z p rest original : Bytes) (at : ℕ) (m : Mem)
    → at ≡ length w + length t
    → length p ≡ length z
    → write at p ((area_of original (w ++ (t ++ (z ++ rest)))).buffer) m
      ≡ ok ((area_of original (w ++ ((t ++ p) ++ rest))).buffer) m
write-slot w t z p rest original at m here same =
    let d = drop (length (w ++ (t ++ (z ++ rest)))) original in
    rw
      (
        length-slot w t z p rest same,
        append_assoc w (t ++ (z ++ rest)) d,
        append_assoc t (z ++ rest) d,
        append_assoc z rest d,
        ← append_assoc w t (z ++ (rest ++ d)),
        write-append at p (w ++ t) (z ++ (rest ++ d)) (omega (arith, here, length-append w t))
            (omega (arith, same, length-append z (rest ++ d))),
        same,
        drop-append z (rest ++ d),
        append_assoc w ((t ++ p) ++ rest) d,
        append_assoc (t ++ p) rest d,
        append_assoc w t p,
        append_assoc w (t ++ p) (rest ++ d),
      )
      refl
