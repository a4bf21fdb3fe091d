-- ===== src/Service/EndToEnd.antt =====
-- A request on its way from the client that builds it, over the wire format, to the getters of
-- lib/srvd/libsrvd/service/nss.
use srvd.Base.{
  ℕ, suc, ◌%◌, ◌/◌, ◌^◌, ◌<◌, ◌≡◌, ◌≢◌, refl, Bool, true, some, [], ◌∷◌, ◌++◌, arith, length, All,
  length-append, append-nil, ==_iff, ◌==◌,
}
use srvd.Memory.{Bytes, Mem, M, ok, ◌>>=◌, Plenty, granted, taken, be32, string_in-terminated}
use srvd.Field.Words.{number32-be32}
use srvd.Packet.{Packet}
use srvd.Packet.View.{packet_of}
use srvd.Packet.Update.{field_append, field_append_uint32}
use srvd.Packet.Update.Append.{single, field_append-append}
use srvd.Serial.{SerialPacket, serialize}
use srvd.Serial.Entries.{IsValue}
use srvd.Serial.Unserialize.{grant_items}
use srvd.Serial.RoundTrip.{receive, IsWire, receive-serialize}
use srvd.Service.{number_get, name_get}
use srvd.Service.Numbers.{number_get-number_in}
use srvd.Service.Names.{name_get-copied}

-- What arrives of a packet.
abbrev pub transfer : SerialPacket → SerialPacket → Packet → M (Bool × Packet)
transfer s r p = do (status, u) ← serialize s p; receive r u.content (packet_of [])

pub single-IsWire : (t : ℕ) (v : Bytes) → t < 2 ^ 16 → IsValue v → IsWire (single t v ∷ [])
single-IsWire t v tag (ne, small) = record {
  counted = (omega arith, (omega arith, tt));
  small = omega (arith, length-append v [], length-append (v ++ []) []);
  items = ((tag, omega arith, ((ne, small), tt)), tt);
  unique = (tt, tt);
}

pub append_uint32 :
    (t value : ℕ) (m : Mem)
    → Plenty m
    → field_append_uint32 (packet_of []) t value m
      ≡ ok (true, packet_of (single t (be32 value) ∷ [])) (granted 3 m)
append_uint32 t value m plenty =
    field_append-append [] t (value / 2 ^ 24 % 256)
      (value / 2 ^ 16 % 256 ∷ value / 2 ^ 8 % 256 ∷ value % 256 ∷ []) [] m refl plenty

-- With memory at hand, the number that a client puts into a request of a type below 2 ^ 16 is the one
-- that a getter of that type reads from the received packet, modulo 2 ^ 32.
pub number_get-transfer :
    (s r : SerialPacket) (t value : ℕ) (m : Mem)
    → t < 2 ^ 16
    → Plenty m
    → (field_append_uint32 (packet_of []) t value >>= λ (_, p).
          transfer s r p >>= λ (_, q). number_get t (record { packet = q }))
        m
      ≡ ok (some (value % 2 ^ 32)) (grant_items (single t (be32 value) ∷ []) (taken (granted 3 m)))
number_get-transfer s r t value m tag plenty =
    let v = be32 value in
    let same : (t == t) ≡ true = (==_iff t t).1 refl in
    rw (
      append_uint32 t value m plenty,
      receive-serialize s r (single t v ∷ []) (granted 3 m)
          (single-IsWire t v tag ((λ e. cc), omega arith)) plenty,
      number_get-number_in t (single t v ∷ []) (grant_items (single t v ∷ []) (taken (granted 3 m)))
          (omega arith, (omega arith, tt)),
      same,
      number32-be32 value,
    )

-- With memory at hand, a string without zeros, not empty and with its terminator shorter than 2 ^ 16,
-- that a client puts with its terminator into a request of a type below 2 ^ 16 is the one that
-- `request_name_get` for that type copies from the received packet.
pub name_get-transfer :
    (s r : SerialPacket) (t b : ℕ) (bs : Bytes) (m : Mem)
    → t < 2 ^ 16
    → All (λ c. c ≢ 0) (b ∷ bs)
    → suc (length (bs ++ 0 ∷ [])) < 2 ^ 16
    → Plenty m
    → (field_append (packet_of []) t (suc (length (bs ++ 0 ∷ []))) (some (b ∷ (bs ++ 0 ∷ [])))
          >>= λ (_, p). transfer s r p >>= λ (_, q). name_get t (record { packet = q }))
        m
      ≡ ok
          (some (b ∷ (bs ++ 0 ∷ [])))
          (taken (grant_items (single t (b ∷ (bs ++ 0 ∷ [])) ∷ []) (taken (granted 3 m))))
name_get-transfer s r t b bs m tag nonzero small plenty =
    let v = b ∷ (bs ++ 0 ∷ []) in
    let same : (t == t) ≡ true = (==_iff t t).1 refl in
    let m₁ = grant_items (single t v ∷ []) (taken (granted 3 m)) in
    rw (
      rw (append-nil (bs ++ 0 ∷ [])) at
          (field_append-append [] t b (bs ++ 0 ∷ []) [] m refl plenty),
      receive-serialize s r (single t v ∷ []) (granted 3 m)
          (single-IsWire t v tag ((λ e. cc), small)) plenty,
      name_get-copied t (single t v) [] m₁ (omega arith, (omega arith, tt)) ((λ e. cc), tt),
      same,
      plenty m₁.calls,
      string_in-terminated (b ∷ bs) nonzero,
    )
