-- ===== src/Memory/Word.antt =====
-- Unsigned words in network byte order, as `htons`, `htonl`, `ntohs` and `ntohl` leave them in memory.
use srvd.Base.{ℕ, ◌+◌, ◌*◌, ◌/◌, ◌%◌, ◌^◌, ◌<◌, ◌≡◌, [], ◌∷◌, arith}
use srvd.Memory.State.{Bytes}

-- The two bytes that `htons((uint16_t)v)` stores, and the value that `ntohs` reads from two bytes.
abbrev pub be16 : ℕ → Bytes
be16 v = (v / 256 % 256) ∷ (v % 256) ∷ []

abbrev pub from_be16 : ℕ → ℕ → ℕ
from_be16 a b = a * 256 + b

abbrev pub be32 : ℕ → Bytes
be32 v = (v / 2 ^ 24 % 256) ∷ (v / 2 ^ 16 % 256) ∷ (v / 2 ^ 8 % 256) ∷ (v % 256) ∷ []

abbrev pub from_be32 : ℕ → ℕ → ℕ → ℕ → ℕ
from_be32 a b c d = a * 2 ^ 24 + b * 2 ^ 16 + c * 2 ^ 8 + d

pub from_be16-be16 : (v : ℕ) → v < 2 ^ 16 → from_be16 (v / 256 % 256) (v % 256) ≡ v
from_be16-be16 v h = omega arith

pub from_be32-be32 :
    (v : ℕ)
    → from_be32 (v / 2 ^ 24 % 256) (v / 2 ^ 16 % 256) (v / 2 ^ 8 % 256) (v % 256) ≡ v % 2 ^ 32
from_be32-be32 v = omega arith

pub be16-mod : (n : ℕ) → be16 (n % 2 ^ 16) ≡ be16 n
be16-mod n = rw (high, low)
  where
    high : n % 2 ^ 16 / 256 % 256 ≡ n / 256 % 256
    high = omega arith

    low : n % 2 ^ 16 % 256 ≡ n % 256
    low = omega arith
