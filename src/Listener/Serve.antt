-- ===== src/Listener/Serve.antt =====
-- The round of `srvd_server_unsock_execute` of lib/srvd/libsrvd/server/unsock.c for one client.
use srvd.Base.{ℕ, ◌+◌, ◌%◌, ◌/◌, ◌≡◌, refl, true, none, some, List, [], ◌∷◌, length}
use srvd.Memory.{Mem, ok, Plenty, Ends, ends, gave_back, taken, granted, be16}
use srvd.Field.View.{Item}
use srvd.Packet.Ownership.{packet_finalize-gave_back}
use srvd.Packet.View.{packet_of, index_from, field_at-middle}
use srvd.Packet.Update.Append.{single, field_insert-cons}
use srvd.Serial.{serial_initialize}
use srvd.Serial.Balance.{live-slot_of}
use srvd.Serial.Encode.{Counted, encode_items, encode_header}
use srvd.Serial.Serialize.{encode}
use srvd.Serial.Unserialize.{grant_items}
use srvd.Serial.RoundTrip.{IsWire}
use srvd.Server.{Server, service_get}
use srvd.Service.{Request, response_initialize, request_finalize, response_finalize}
use srvd.Unsock.{complete}
use srvd.Unsock.Transfer.{write_serial-encode, read_header-encode}
use srvd.Listener.{
  Handler, Connection, protocol_status, response_unavail, server_read, server_write, insert_status,
  respond, dispatch, answer_request, serve,
}

-- What becomes of a request of a type, from a memory to the next: the fields of the answer, which
-- are none when there is no handler for the type, and the status code.
pub data Handled (monitor : Server Handler) (t : ℕ) (request : Request)
    : Mem → List Item → ℕ → Mem → Type 0 where
  unavailable :
      {m : Mem} → service_get monitor t ≡ none → Handled monitor t request m [] response_unavail m
  handled :
      {m m₁ : Mem} {handler : Handler} {reply : List Item} {code : ℕ}
      → service_get monitor t ≡ some handler
      → handler request response_initialize.1 m
        ≡ ok (record { packet = packet_of reply; status = code }) m₁
      → Handled monitor t request m reply code m₁

-- The answer: the status code in front.
abbrev pub answer_with : ℕ → List Item → List Item
answer_with code reply = single protocol_status (be16 code) ∷ reply

insert_status-cons :
    (reply : List Item) (old code : ℕ) (m : Mem)
    → index_from protocol_status 0 reply ≡ none
    → Plenty m
    → insert_status (record { packet = packet_of reply; status = old }) code m
      ≡ ok (record { packet = packet_of (answer_with code reply); status = old }) (granted 3 m)
unfolding insert_status
insert_status-cons reply old code m absent plenty = rw (
    field_insert-cons reply protocol_status (code / 256 % 256) (code % 256 ∷ []) [] m absent plenty)

respond-Handled :
    (monitor : Server Handler) (t : ℕ) (request : Request) (reply : List Item) (code : ℕ)
    (m m₁ : Mem)
    → Handled monitor t request m reply code m₁
    → index_from protocol_status 0 reply ≡ none
    → Plenty m₁
    → (kept : ℕ) × (respond (service_get monitor t) request response_initialize.1 m
        ≡ ok (record { packet = packet_of (answer_with code reply); status = kept }) (granted 3 m₁))
unfolding respond
respond-Handled monitor t request reply code m m₁ (unavailable none_there) absent plenty =
    (65535, rw (none_there, insert_status-cons [] 65535 response_unavail m refl plenty))
respond-Handled monitor t request reply code m m₁ (handled there run) absent plenty =
    (code, rw (there, run, insert_status-cons reply code code m₁ absent plenty))

module _ (monitor : Server Handler) (c : Connection) (it : Item) (its reply : List Item) (code : ℕ)
    (m m₁ : Mem)
    (talk : Handled monitor it.tag (record { packet = packet_of (it ∷ its) }) m reply code m₁)
    (absent : index_from protocol_status 0 reply ≡ none) (plenty : Plenty m₁)
    (counted : Counted (answer_with code reply)) where
  dispatch-Handled :
      (kept : ℕ) × (dispatch monitor c (record { packet = packet_of (it ∷ its) }) (some 0) m
        ≡ ok
            (
              some (
                complete
                    (length (encode (answer_with code reply)))
                    (c.writes (encode (answer_with code reply))),
                encode (answer_with code reply),
              ),
              record { packet = packet_of (answer_with code reply); status = kept },
            )
            (gave_back 1 (taken (granted 3 m₁))))
  unfolding dispatch server_write
  dispatch-Handled =
      let (kept, e) =
        respond-Handled monitor it.tag (record { packet = packet_of (it ∷ its) }) reply code m m₁
          talk absent plenty in
      (
        kept,
        rw (
          field_at-middle [] it its,
          e,
          write_serial-encode (serial_initialize c.garbage).1 c.writes (answer_with code reply)
              (granted 3 m₁) counted (plenty (m₁.calls + 3)),
        ),
      )

server_read-encode :
    (c : Connection) (its : List Item) (m : Mem)
    → c.first ≡ some (encode_header its)
    → c.reads (length (encode_items its)) ≡ some (encode_items its)
    → IsWire its
    → Plenty m
    → server_read c (packet_of []) m
      ≡ ok (true, packet_of its) (gave_back 1 (grant_items its (taken m)))
unfolding server_read
server_read-encode c its m header body wire plenty =
    rw (
      header,
      read_header-encode (serial_initialize c.garbage).1 c.reads its m refl wire body plenty,
    )

-- With memory at hand, a client whose request has the wire format and at least one field gets one
-- answer, when the handler leaves no field with the type of the status and the counts fit: the fields that the handler for the
-- type of the first field filled in, with the status code in front; without a handler, the code
-- alone, which says that the service is not available. It was written when `write` took all of it.
pub serve-Handled :
    (monitor : Server Handler) (c : Connection) (it : Item) (its reply : List Item) (code : ℕ)
    (m m₁ : Mem)
    → c.first ≡ some (encode_header (it ∷ its))
    → c.reads (length (encode_items (it ∷ its))) ≡ some (encode_items (it ∷ its))
    → IsWire (it ∷ its)
    → Plenty m
    → Handled monitor it.tag
        (record { packet = packet_of (it ∷ its) })
        (gave_back 1 (grant_items (it ∷ its) (taken m)))
        reply
        code
        m₁
    → index_from protocol_status 0 reply ≡ none
    → Plenty m₁
    → Counted (answer_with code reply)
    → Ends
        (λ r.
          r
          ≡ some (
            complete
                (length (encode (answer_with code reply)))
                (c.writes (encode (answer_with code reply))),
            encode (answer_with code reply),
          ))
        (serve monitor c m)
unfolding serve answer_request request_finalize response_finalize
serve-Handled monitor c it its reply code m m₁ header body wire plenty talk absent plenty' counted =
    let (kept, e) =
      dispatch-Handled monitor c it its reply code (gave_back 1 (grant_items (it ∷ its) (taken m)))
        m₁ talk absent plenty' counted in
    rw
      (
        server_read-encode c (it ∷ its) m header body wire plenty,
        e,
        packet_finalize-gave_back (packet_of (it ∷ its)) (gave_back 1 (taken (granted 3 m₁)))
            (live-slot_of (it ∷ its)),
        packet_finalize-gave_back (packet_of (answer_with code reply)) _
            (live-slot_of (answer_with code reply)),
      )
      (ends refl)
