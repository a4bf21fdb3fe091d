-- ===== src/Field/Words.antt =====
-- The value getters of include/srvd/protocol/packet.h and the byte order.
use srvd.Base.{ℕ, ◌%◌, ◌/◌, ◌^◌, ◌≡◌, refl, ap, Option, none, some, [], ◌∷◌, arith}
use srvd.Memory.{
  Bytes, Mem, ok, be16, be32, from_be32-be32, from_be16, from_be32, read16, read32, word32, word16,
}
use srvd.Field.{entry_get_uint32, entry_get_uint16, entry_get_uint8, read_through, byte0}
use srvd.Field.View.{entry_of}

-- The number in a value of the right size.
abbrev pub number32 : Bytes → Option ℕ
number32 (a ∷ b ∷ c ∷ d ∷ []) = some (from_be32 a b c d)
number32 _ = none

abbrev pub number16 : Bytes → Option ℕ
number16 (a ∷ b ∷ []) = some (from_be16 a b)
number16 _ = none

abbrev pub number8 : Bytes → Option ℕ
number8 (a ∷ []) = some a
number8 _ = none

pub entry_get_uint32-number32 :
    (v : Bytes) (m : Mem) → entry_get_uint32 (entry_of v) m ≡ ok (number32 v) m
unfolding entry_get_uint32 read_through read32 word32
entry_get_uint32-number32 [] m = refl
entry_get_uint32-number32 (a ∷ []) m = refl
entry_get_uint32-number32 (a ∷ b ∷ []) m = refl
entry_get_uint32-number32 (a ∷ b ∷ c ∷ []) m = refl
entry_get_uint32-number32 (a ∷ b ∷ c ∷ d ∷ []) m = refl
entry_get_uint32-number32 (a ∷ b ∷ c ∷ d ∷ e ∷ v) m = ground arith

pub entry_get_uint16-number16 :
    (v : Bytes) (m : Mem) → entry_get_uint16 (entry_of v) m ≡ ok (number16 v) m
unfolding entry_get_uint16 read_through read16 word16
entry_get_uint16-number16 [] m = refl
entry_get_uint16-number16 (a ∷ []) m = refl
entry_get_uint16-number16 (a ∷ b ∷ []) m = refl
entry_get_uint16-number16 (a ∷ b ∷ c ∷ v) m = ground arith

pub entry_get_uint8-number8 :
    (v : Bytes) (m : Mem) → entry_get_uint8 (entry_of v) m ≡ ok (number8 v) m
unfolding entry_get_uint8 read_through byte0
entry_get_uint8-number8 [] m = refl
entry_get_uint8-number8 (a ∷ []) m = refl
entry_get_uint8-number8 (a ∷ b ∷ v) m = ground arith

-- The number in the bytes that the value adders write.
pub number32-be32 : (value : ℕ) → number32 (be32 value) ≡ some (value % 2 ^ 32)
number32-be32 value = ap some (from_be32-be32 value)

pub number16-be16 : (value : ℕ) → number16 (be16 value) ≡ some (value % 2 ^ 16)
number16-be16 value =
    let e : from_be16 (value / 256 % 256) (value % 256) ≡ value % 2 ^ 16 = omega arith in ap some e
