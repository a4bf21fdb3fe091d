-- ===== src/Serial/Safety.antt =====
-- The reads of `unserialize_body` of lib/srvd/libsrvd/protocol/serial_packet.c.
use srvd.Base.{
  ℕ, zero, suc, ◌+◌, ◌*◌, ◌≤◌, ◌<◌, ◌≡◌, Bool, true, not, Option, none, some, arith, length, drop,
  leb, ltb, ltb→le, leb→lt, Bool-cases, inl, inr, length-drop,
}
use srvd.Memory.{Bytes, Mem, M, Ends, ends, bind, if-Ends, read16-Ends, pure, ◌>>=◌}
use srvd.Packet.{Packet, field_release_at}
use srvd.Packet.Live.{IsLive, entry_add_at-Ends, field_release_at-Ends}
use srvd.Packet.Update.Live.{Found, field_get_or_add-Ends}
use srvd.Serial.{
  SerialPacket, read_entries, read_field, field_round, read_fields, next_field, unserialize_body,
}

-- Where a loop that goes on stands, and the packet that it has.
abbrev Goes : ℕ → Option ℕ × Packet → Type 0
Goes body_size (none, q) = Unit {0}
Goes body_size (some e, q) = (e ≤ body_size) × IsLive q

-- The packet of a body that is accepted links no freed field.
abbrev pub Accepted : Bool × Packet → Type 0
Accepted (status, q) = status ≡ true → IsLive q

module _ (body_size : ℕ) (body : Bytes) where
  stop_at :
      (i : ℕ) (packet : Packet) (m : Mem)
      → IsLive packet
      → i < length packet.fields
      → Ends (Goes body_size) ((field_release_at packet i >>= λ q. pure (none, q)) m)
  stop_at i packet m alive found =
      bind (field_release_at-Ends packet i m alive found) λ q m₁ _. ends tt

  read_entries-Ends :
      (n i p : ℕ) (packet : Packet) (m : Mem)
      → body_size + 2 ≤ length body
      → p ≤ body_size
      → IsLive packet
      → i < length packet.fields
      → Ends (Goes body_size) (read_entries body_size body i n p packet m)
  unfolding read_entries
  read_entries-Ends zero i p packet m room within alive found = ends (within, alive)
  read_entries-Ends (suc n) i p packet m room within alive found =
      bind (read16-Ends body p m (omega arith)) λ size m₁ _.
        elim (Bool-cases (ltb body_size (p + 2 + size))) [
          | inl out ↦ rw out (stop_at i packet m₁ alive found)
          | inr inside ↦ rw inside (
              let fits : p + 2 + size ≤ body_size = ltb→le body_size (p + 2 + size) inside in
              bind
                (entry_add_at-Ends packet i size (drop (p + 2) body) m₁ alive found
                  (omega (arith, length-drop (p + 2) body)))
                λ (status, q) m₂ (alive', same).
                  let found' : i < length q.fields = omega arith in
                  if-Ends (not status) _ _ m₂ (stop_at i q m₂ alive' found')
                    (read_entries-Ends n i (p + 2 + size) q m₂ room fits alive' found'))
        ]

  read_field-Ends :
      (n p : ℕ) (o : Option ℕ) (packet : Packet) (m : Mem)
      → body_size + 2 ≤ length body
      → p ≤ body_size
      → Found (o, packet)
      → Ends (Goes body_size) (read_field body_size body n p o packet m)
  unfolding read_field
  read_field-Ends n p none packet m room within found = ends tt
  read_field-Ends n p (some i) packet m room within (alive, found) =
      read_entries-Ends n i p packet m room within alive found

  field_round-Ends :
      (p : ℕ) (packet : Packet) (m : Mem)
      → body_size + 3 ≤ length body
      → IsLive packet
      → Ends (Goes body_size) (field_round body_size body p packet m)
  unfolding field_round
  field_round-Ends p packet m room alive = elim (Bool-cases (leb body_size p)) [
    | inl out ↦ rw out (ends tt)
    | inr inside ↦ rw inside (
        let before : p < body_size = leb→lt body_size p inside in
        bind (read16-Ends body p m (omega arith)) λ type m₁ _.
          bind (read16-Ends body (p + 2) m₁ (omega arith)) λ n m₂ _.
            elim (Bool-cases (ltb body_size (p + 4 + n * 2))) [
              | inl long ↦ rw long (ends tt)
              | inr short ↦ rw short (
                  let within : p + 4 + n * 2 ≤ body_size = ltb→le body_size (p + 4 + n * 2) short in
                  bind (field_get_or_add-Ends packet type m₂ alive) λ (o, q) m₃ found.
                    read_field-Ends n (p + 4) o q m₃ (omega arith) (omega arith) found)
            ])
  ]

  next_field-Ends :
      (go : ℕ → Packet → M (Bool × Packet)) (o : Option ℕ) (q : Packet) (m : Mem)
      → Goes body_size (o, q)
      → ((e : ℕ) → IsLive q → Ends Accepted (go e q m))
      → Ends Accepted (next_field go o q m)
  unfolding next_field
  next_field-Ends go none q m goes next = ends λ e. cc
  next_field-Ends go (some e) q m goes next = next e goes.1

  read_fields-Ends :
      (n p : ℕ) (packet : Packet) (m : Mem)
      → body_size + 3 ≤ length body
      → IsLive packet
      → Ends Accepted (read_fields body_size body n p packet m)
  unfolding read_fields
  read_fields-Ends zero p packet m room alive = ends λ e. alive
  read_fields-Ends (suc n) p packet m room alive =
      bind (field_round-Ends p packet m room alive) λ (o, q) m₁ goes.
        next_field-Ends (read_fields body_size body n) o q m₁ goes
          λ e alive'. read_fields-Ends n e q m₁ room alive'

-- With a buffer of three bytes more than the size that the header announced, and whatever
-- `malloc` answers, `unserialize_body` ends without undefined behaviour on a packet none of whose
-- fields was freed; if it accepts the body, none of the fields of the result was freed either.
pub unserialize_body-Ends :
    (s : SerialPacket) (packet : Packet) (body : Bytes) (m : Mem)
    → s.body_size + 3 ≤ length body
    → IsLive packet
    → Ends Accepted (unserialize_body s packet body m)
unfolding unserialize_body
unserialize_body-Ends s packet body m room alive =
    elim (Bool-cases (ltb s.body_size (s.field_count * 4))) [
      | inl e ↦ rw e (ends λ e'. cc)
      | inr e ↦ rw e (read_fields-Ends s.body_size body s.field_count 0 packet m room alive)
    ]
