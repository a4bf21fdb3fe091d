-- ===== src/Memory/Buffer.antt =====
-- Accesses to a buffer through an offset. An access that leaves the buffer is a fault.
use srvd.Base.{
  ℕ, ◌+◌, ◌%◌, ◌^◌, ◌<◌, ◌≤◌, ◌≡◌, refl, Option, none, some, [], ◌∷◌, ◌++◌, arith, leb, ◌==◌,
  if◌then◌else◌, length, take, drop, take-append, drop-append, drop-drop, length-append,
  length-drop, append_assoc, le→leb, take-length,
}
use srvd.Memory.State.{Bytes, Mem, M, fault, pure, undefined}
use srvd.Memory.Word.{from_be16, from_be32, be16, be32, from_be16-be16, from_be32-be32}

unfoldable pub word16 : Bytes → M ℕ
word16 (a ∷ b ∷ bs) = pure (from_be16 a b)
word16 _ = undefined

unfoldable pub word32 : Bytes → M ℕ
word32 (a ∷ b ∷ c ∷ d ∷ bs) = pure (from_be32 a b c d)
word32 _ = undefined

-- `ntohs(*(uint16_t *)(buffer + p))`
unfoldable pub read16 : Bytes → ℕ → M ℕ
unfolding word16
read16 buffer p = word16 (drop p buffer)

unfoldable pub read32 : Bytes → ℕ → M ℕ
unfolding word32
read32 buffer p = word32 (drop p buffer)

-- Reading `size` bytes through a pointer, as the source side of `memcpy` does.
unfoldable pub copy : Option Bytes → ℕ → M Bytes
copy none size = if size == 0 then pure [] else undefined
copy (some bs) size = if leb size (length bs) then pure (take size bs) else undefined

-- The target side of `memcpy`: `bs` replaces the bytes of `buffer` from offset `p` on.
unfoldable pub write : ℕ → Bytes → Bytes → M Bytes
write p bs buffer =
    if leb (p + length bs) (length buffer)
    then pure (take p buffer ++ (bs ++ drop (p + length bs) buffer))
    else undefined

-- What a write does at the end of the part that is filled already.
pub write-append :
    (p : ℕ) (bs front slack : Bytes)
    → p ≡ length front
    → length bs ≤ length slack
    → write p bs (front ++ slack) ≡ pure ((front ++ bs) ++ drop (length bs) slack)
unfolding write
write-append p bs front slack at h = rw (
  at,
  le→leb (length front + length bs) (length (front ++ slack))
      (omega (arith, length-append front slack)),
  take-append front slack,
  drop-drop (length bs) (length front) (front ++ slack),
  drop-append front slack,
  append_assoc front bs (drop (length bs) slack),
)

pub copy-ok : (bs : Bytes) {size : ℕ} → size ≡ length bs → copy (some bs) size ≡ pure bs
unfolding copy
copy-ok bs h = rw (h, le→leb (length bs) (length bs) (omega arith), take-length bs)

pub copy-null : copy none 0 ≡ pure []
unfolding copy
copy-null = refl

pub read16-be16 :
    (buffer : Bytes) (p v : ℕ) {rest : Bytes}
    → v < 2 ^ 16
    → drop p buffer ≡ be16 v ++ rest
    → read16 buffer p ≡ pure v
unfolding read16 word16
read16-be16 buffer p v h at = rw (at, from_be16-be16 v h)

pub read32-be32 :
    (buffer : Bytes) (p v : ℕ) {rest : Bytes}
    → v < 2 ^ 32
    → drop p buffer ≡ be32 v ++ rest
    → read32 buffer p ≡ pure v
unfolding read32 word32
read32-be32 buffer p v h at =
    let same : v % 2 ^ 32 ≡ v = omega arith in rw (at, from_be32-be32 v, same)

word16-fault : (bs : Bytes) (m : Mem) → length bs < 2 → word16 bs m ≡ fault
unfolding word16
word16-fault [] m h = refl
word16-fault (a ∷ []) m h = refl
word16-fault (a ∷ b ∷ bs) m h = absurd (omega arith)

-- A read of two bytes that leaves the buffer.
pub read16-fault :
    (buffer : Bytes) (p : ℕ) (m : Mem) → length buffer < p + 2 → read16 buffer p m ≡ fault
unfolding read16
read16-fault buffer p m h = word16-fault (drop p buffer) m (omega (arith, length-drop p buffer))
