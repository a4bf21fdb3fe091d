-- ===== src/Unsock/Talk.antt =====
-- A conversation of lib/srvd/libsrvd/service.c with a server through the function pointers of
-- lib/srvd/libsrvd/client/unsock.c.
use srvd.Base.{ℕ, ◌≡◌, Bool, true, false, Option, some, List, [], length, ==_iff, refl}
use srvd.Memory.{Bytes, Mem, ok, free, taken, gave_back, Plenty}
use srvd.Field.View.{Item}
use srvd.Packet.View.{packet_of}
use srvd.Serial.Encode.{Counted, encode_items, encode_header}
use srvd.Serial.Serialize.{encode}
use srvd.Serial.Unserialize.{grant_items}
use srvd.Serial.RoundTrip.{IsWire}
use srvd.Service.Query.{Conversation, answered}
use srvd.Unsock.{Unsock, Socket, complete, unsock_connect, unsock_disconnect, unsock_client}
use srvd.Unsock.Transfer.{unsock_write-encode, unsock_read-encode}

-- The memory after a question was sent and an answer received.
abbrev pub talked_memory : List Item → Mem → Mem
talked_memory reply m = gave_back 1 (grant_items reply (taken (gave_back 1 (taken m))))

abbrev pub idle : Bytes → Unsock
idle path = record { connected = false; sun_path = path }

abbrev up : Bytes → Unsock
up path = record { connected = true; sun_path = path }

unsock_connect-idle : (path : Bytes) → unsock_connect (idle path) true ≡ (true, up path)
unfolding unsock_connect
unsock_connect-idle path = refl

unsock_disconnect-up :
    (path : Bytes) (closes : Bool) → unsock_disconnect (up path) closes ≡ (closes, up path)
unfolding unsock_disconnect
unsock_disconnect-up path closes = refl

pub complete-all : (n : ℕ) (o : Option ℕ) → o ≡ some n → complete n o ≡ true
complete-all n o e = rw e ((==_iff n n).1 refl)

-- With memory at hand, a socket that takes the question in its wire format and brings an answer in
-- the wire format makes a conversation that ends well, with the fields of the answer.
pub unsock_client-Conversation :
    (path : Bytes) (s : Socket) (its reply : List Item) (m : Mem)
    → s.connects ≡ true
    → s.writes (encode its) ≡ some (length (encode its))
    → s.first (encode its) ≡ some (encode_header reply)
    → s.reads (encode its) (length (encode_items reply)) ≡ some (encode_items reply)
    → Counted its
    → IsWire reply
    → Plenty m
    → Conversation
        (unsock_client (idle path) s)
        (packet_of its)
        []
        m
        true
        reply
        (talked_memory reply m)
unfolding unsock_client
unsock_client-Conversation path s its reply m connects takes header body counted wire plenty =
    let m₂ = gave_back 1 (taken m) in
    answered {m₁ = m} {m₂ = m₂} {m₃ = talked_memory reply m} {clean = s.closes} {sent = encode its}
      (rw (connects, unsock_connect-idle path) refl)
      (rw
        (
          connects,
          unsock_connect-idle path,
          unsock_write-encode s.garbage_out (up path) s.writes its m refl counted (plenty m.calls),
          complete-all (length (encode its)) (s.writes (encode its)) takes,
        )
        refl)
      (rw
        (
          connects,
          unsock_connect-idle path,
          header,
          unsock_read-encode s.garbage_in (up path) (s.reads (encode its)) reply m₂ refl wire body
              plenty,
        )
        refl)
      (rw (connects, unsock_connect-idle path, unsock_disconnect-up path s.closes) refl)

pub unsock_client-release :
    (c : Unsock) (s : Socket) (m : Mem) → (unsock_client c s).release m ≡ ok tt (gave_back 1 m)
unfolding unsock_client free
unsock_client-release c s m = refl
