-- ===== src/Stack/Sockets.antt =====
-- The sockets between the client of lib/srvd/libsrvd/client/unsock.c and the server of
-- lib/srvd/libsrvd/server/unsock.c: what the server hears is what the client wrote, and what the client
-- reads is what the server wrote then.
use srvd.Base.{
  ℕ, ◌≡◌, true, some, none, List, [], ◌∷◌, ◌∙◌, ap, append-nil, length, take, drop, take-append,
}
use srvd.Memory.{Bytes, Mem, Plenty, Ends, mono, taken, gave_back}
use srvd.Field.View.{Item}
use srvd.Packet.View.{packet_of, index_from}
use srvd.Serial.{header_size}
use srvd.Serial.Encode.{encode_items}
use srvd.Serial.Serialize.{encode}
use srvd.Serial.Unserialize.{grant_items}
use srvd.Serial.RoundTrip.{IsWire}
use srvd.Unsock.{Socket, unsock_client}
use srvd.Unsock.Talk.{idle, unsock_client-Conversation, complete-all, talked_memory}
use srvd.Service.Query.{Conversation}
use srvd.Server.{Server}
use srvd.Listener.{Handler, Connection, protocol_status, serve}
use srvd.Listener.Serve.{Handled, answer_with, serve-Handled}

-- Stream sockets that carry all in both directions: a client that wrote `sent` is the connection
-- `accepted sent`, on which the server reads these bytes in order; and when the server, which runs in
-- the memory `m`, answers by writing `back`, the client reads those bytes in order.
pub record Carries (socket : Socket) (accepted : Bytes → Connection) (monitor : Server Handler)
    (m : Mem) : Type 0 where
  pub connects : socket.connects ≡ true
  pub takes : (sent : Bytes) → socket.writes sent ≡ some (length sent)
  pub heard_header : (sent : Bytes) → (accepted sent).first ≡ some (take header_size sent)
  pub heard_body :
      (sent : Bytes) (n : ℕ) → (accepted sent).reads n ≡ some (take n (drop header_size sent))
  pub takes_answer : (sent back : Bytes) → (accepted sent).writes back ≡ some (length back)
  pub header :
      (sent back : Bytes)
      → Ends (λ r. r ≡ some (true, back)) (serve monitor (accepted sent) m)
      → socket.first sent ≡ some (take header_size back)
  pub body :
      (sent back : Bytes) (n : ℕ)
      → Ends (λ r. r ≡ some (true, back)) (serve monitor (accepted sent) m)
      → socket.reads sent n ≡ some (take n (drop header_size back))

-- A server, which runs in the memory `m`, has a handler that fills in `reply` with the status `code` for
-- a request with these fields, or no handler for it; and the wire format can carry the answer.
pub record Replies (monitor : Server Handler) (m : Mem) (it : Item) (its reply : List Item)
    (code : ℕ) : Type 0 where
  pub after : Mem
  pub outcome :
      Handled monitor it.tag
        (record { packet = packet_of (it ∷ its) })
        (gave_back 1 (grant_items (it ∷ its) (taken m)))
        reply
        code
        after
  pub plenty : Plenty after
  pub wire : IsWire (answer_with code reply)
  pub absent : index_from protocol_status 0 reply ≡ none

take-all : (bs : Bytes) → take (length bs) bs ≡ bs
take-all bs = rw (append-nil bs) at (take-append bs [])

module _ (socket : Socket) (accepted : Bytes → Connection) (monitor : Server Handler) (m₂ : Mem)
    (carries : Carries socket accepted monitor m₂) (plenty₂ : Plenty m₂) (it : Item)
    (its reply : List Item) (code : ℕ) (question : IsWire (it ∷ its))
    (replies : Replies monitor m₂ it its reply code) where
  abbrev answer : List Item
  answer = answer_with code reply

  -- The server on the bytes of the request.
  pub serve-Replies :
      Ends (λ r. r ≡ some (true, encode answer)) (serve monitor (accepted (encode (it ∷ its))) m₂)
  serve-Replies =
      let sent = encode (it ∷ its) in
      let c = accepted sent in
      let heard : c.reads (length (encode_items (it ∷ its))) ≡ some (encode_items (it ∷ its)) =
        carries.heard_body sent (length (encode_items (it ∷ its)))
        ∙ ap some (take-all (encode_items (it ∷ its))) in
      mono
        (serve-Handled monitor c it its reply code m₂ replies.after (carries.heard_header sent)
          heard question plenty₂ replies.outcome replies.absent replies.plenty replies.wire.counted)
        λ r e.
          e
          ∙ ap (λ b. some (b, encode answer))
              (complete-all (length (encode answer)) (c.writes (encode answer))
                (carries.takes_answer sent (encode answer)))

  -- The client's part, on the bytes of that answer.
  pub Carries-Conversation :
      (path : Bytes) (m : Mem)
      → Plenty m
      → Conversation
          (unsock_client (idle path) socket)
          (packet_of (it ∷ its))
          []
          m
          true
          answer
          (talked_memory answer m)
  Carries-Conversation path m plenty =
      let sent = encode (it ∷ its) in
      unsock_client-Conversation path socket (it ∷ its) answer m carries.connects
        (carries.takes sent) (carries.header sent (encode answer) serve-Replies)
        (carries.body sent (encode answer) (length (encode_items answer)) serve-Replies
          ∙ ap some (take-all (encode_items answer)))
        question.counted replies.wire plenty
