-- ===== src/Stack/Trip.antt =====
-- A request on its way from a configured client to a server and back: lib/srvd/libsrvd/service.c,
-- conf.c, client.c, client/unsock.c and server/unsock.c.
use srvd.Base.{ℕ, ◌≢◌, ◌%◌, ◌^◌, ◌≡◌, true, some, List, [], ◌∷◌, ap, ◌∙◌}
use srvd.Memory.{Bytes, Mem, ok, Plenty, Ends, taken, gave_back}
use srvd.Field.View.{Item}
use srvd.Field.Words.{number16-be16}
use srvd.Packet.View.{packet_of}
use srvd.Serial.Serialize.{encode}
use srvd.Serial.RoundTrip.{IsWire}
use srvd.Conf.Items.{holds}
use srvd.Conf.Reader.Documents.{Line, parsed}
use srvd.Conf.File.{ConfFile, fconf_default}
use srvd.Conf.File.Default.{loaded}
use srvd.Unsock.Talk.{talked_memory}
use srvd.Service.{response_initialize, store}
use srvd.Service.Numbers.{code_of}
use srvd.Server.{Server}
use srvd.Listener.{Handler, Connection, serve}
use srvd.Listener.Serve.{answer_with}
use srvd.Stack.{System, default_conf, linked_query}
use srvd.Stack.Sockets.{Carries, Replies, serve-Replies, Carries-Conversation}
use srvd.Stack.Configured.{
  Configured, conf_memory, conf_memory-Plenty, default_conf-first, default_conf-later,
  linked_query-talked,
}

code_of-answer :
    (code : ℕ) (reply : List Item) → code_of 65535 (answer_with code reply) ≡ code % 2 ^ 16
code_of-answer code reply = ap (store 65535) (number16-be16 code)

module _ (system : System) (path : Bytes) (l : Line) (ls : List Line)
    (configured : Configured system path l ls) (accepted : Bytes → Connection)
    (monitor : Server Handler) (m₂ : Mem) (carries : Carries system.socket accepted monitor m₂)
    (plenty₂ : Plenty m₂) where
  -- The query on the client's side, from its configuration on.
  linked_query-Replies :
      (f : ConfFile) (it : Item) (its reply : List Item) (code : ℕ) (m m₁ : Mem)
      → default_conf system f m ≡ ok (some (holds (parsed (l ∷ ls) []))) m₁
      → Plenty m₁
      → IsWire (it ∷ its)
      → Replies monitor m₂ it its reply code
      → linked_query system f (record { packet = packet_of (it ∷ its) }) response_initialize.1 m
        ≡ ok
            (true, record { packet = packet_of (answer_with code reply); status = code % 2 ^ 16 })
            (gave_back 1 (talked_memory (answer_with code reply) (taken m₁)))
  linked_query-Replies f it its reply code m m₁ read plenty question replies =
      linked_query-talked system path l ls configured f (it ∷ its) (answer_with code reply) 65535 m
        m₁ read plenty
        (Carries-Conversation system.socket accepted monitor m₂ carries plenty₂ it its reply code
          question replies)
      ∙ ap
          (λ s.
            ok (true, record { packet = packet_of (answer_with code reply); status = s })
              (gave_back 1 (talked_memory (answer_with code reply) (taken m₁))))
          (code_of-answer code reply)

  -- With memory at hand on both sides, a client whose default configuration file has lines that name
  -- the adapter "unsock" and a path, and sockets that carry all of both directions, so that the server
  -- hears what the client wrote and the client reads what the server wrote then. For a request that the
  -- wire format can carry, and a server with a handler for the type of its first field or none, whose answer the
  -- wire format can carry with no second field of the type of the status: the server writes one answer, the fields that the handler filled in for this very request with its
  -- status code in front, or the code that says "unavailable" alone; and the query of the client
  -- returns `SRVD_TRUE` with exactly these fields in the response and the code, a `uint16_t`, as its
  -- status.
  pub linked_query-serve :
      (it : Item) (its reply : List Item) (code : ℕ) (m : Mem)
      → Plenty m
      → IsWire (it ∷ its)
      → Replies monitor m₂ it its reply code
      → Ends
          (λ r. r ≡ some (true, encode (answer_with code reply)))
          (serve monitor (accepted (encode (it ∷ its))) m₂)
        × ((m' : Mem) × (linked_query system fconf_default
                (record { packet = packet_of (it ∷ its) })
                response_initialize.1
                m
              ≡ ok
                  (
                    true,
                    record { packet = packet_of (answer_with code reply); status = code % 2 ^ 16 },
                  )
                  m'))
  linked_query-serve it its reply code m plenty question replies =
      let m₁ = conf_memory system path l ls configured m in
      (
        serve-Replies system.socket accepted monitor m₂ carries plenty₂ it its reply code question
            replies,
        (
          gave_back 1 (talked_memory (answer_with code reply) (taken m₁)),
          linked_query-Replies fconf_default it its reply code m m₁
              (default_conf-first system path l ls configured m plenty)
              (conf_memory-Plenty system path l ls configured m plenty) question replies,
        ),
      )

  -- A later query, while the time of the configuration file is the same: only the blocks of the response
  -- stay in use.
  pub linked_query-later :
      (default_path : Bytes) (size mtime : ℕ) (it : Item) (its reply : List Item) (code : ℕ)
      (m : Mem)
      → system.checked ≡ some (record { size = size; mtime = mtime })
      → mtime ≢ 0
      → Plenty m
      → IsWire (it ∷ its)
      → Replies monitor m₂ it its reply code
      → linked_query system
          (loaded (l ∷ ls) mtime default_path)
          (record { packet = packet_of (it ∷ its) })
          response_initialize.1
          m
        ≡ ok
            (true, record { packet = packet_of (answer_with code reply); status = code % 2 ^ 16 })
            (gave_back 1 (talked_memory (answer_with code reply) (taken m)))
  linked_query-later default_path size mtime it its reply code m checked ne plenty question
        replies =
      linked_query-Replies (loaded (l ∷ ls) mtime default_path) it its reply code m m
        (default_conf-later system path l ls configured default_path size mtime m checked ne) plenty
        question replies
