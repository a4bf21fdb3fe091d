-- ===== src/Serial/Dangling.antt =====
-- The error paths of the loop over the entries in lib/srvd/libsrvd/protocol/serial_packet.c.
use srvd.Base.{ℕ, zero, suc, ◌+◌, ◌≡◌, refl, not, Option, none, some, ltb, drop}
use srvd.Memory.{
  Bytes, Mem, ok, fault, pure, ◌>>=◌, Yields, result, chain, if-Yields, any-Yields, Yields-ok,
  read16,
}
use srvd.Packet.{Packet, packet_finalize, field_release_at, entry_add_at}
use srvd.Packet.Freed.{HasFreed, field_release_at-HasFreed, packet_finalize-fault}
use srvd.Serial.{read_entries}

abbrev Stopped : Option ℕ × Packet → Type 0
Stopped (o, q) = o ≡ none → HasFreed q

stop-Stopped :
    (i : ℕ) (packet : Packet) (m : Mem)
    → Yields Stopped ((field_release_at packet i >>= λ q. pure (none, q)) m)
stop-Stopped i packet m = chain (field_release_at-HasFreed packet i m) λ q m₁ h. result λ _. h

read_entries-Stopped :
    (body_size : ℕ) (body : Bytes) (i n p : ℕ) (packet : Packet) (m : Mem)
    → Yields Stopped (read_entries body_size body i n p packet m)
unfolding read_entries
read_entries-Stopped body_size body i zero p packet m = result λ e. cc
read_entries-Stopped body_size body i (suc n) p packet m =
    chain (any-Yields (read16 body p m)) λ size m₁ _.
      if-Yields (ltb body_size (p + 2 + size)) _ _ m₁ (stop-Stopped i packet m₁) (
        chain (any-Yields (entry_add_at packet i size (some (drop (p + 2) body)) m₁))
          λ (status, q) m₂ _.
            if-Yields (not status) _ _ m₂ (stop-Stopped i q m₂)
              (read_entries-Stopped body_size body i n (p + 2 + size) q m₂))

-- Whatever the input, when the loop over the entries of a field returns the status `SRVD_FALSE`,
-- a later `packet_finalize` of the packet runs into the field that was freed.
pub packet_finalize-read_entries :
    (body_size : ℕ) (body : Bytes) (i n p : ℕ) (packet q : Packet) (m m' m'' : Mem)
    → read_entries body_size body i n p packet m ≡ ok (none, q) m'
    → packet_finalize q m'' ≡ fault
packet_finalize-read_entries body_size body i n p packet q m m' m'' stopped =
    let y : Yields Stopped (ok (none, q) m') =
      rw stopped at (read_entries-Stopped body_size body i n p packet m) in
    packet_finalize-fault q m'' (Yields-ok y refl)
