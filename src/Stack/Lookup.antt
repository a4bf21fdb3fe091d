-- ===== src/Stack/Lookup.antt =====
-- A lookup of a user over all parts: `_nss_srvd_getpwuid_r` of lib/srvd/nss/passwd.c with the query of
-- lib/srvd/libsrvd/service.c as it is linked, and the server of lib/srvd/libsrvd/server/unsock.c.
use srvd.Base.{ℕ, ◌%◌, ◌^◌, ◌≤◌, ◌≡◌, ◌≢◌, Bool, true, some, List, [], ◌∷◌, All, arith, length}
use srvd.Memory.{Bytes, Mem, ok, Plenty, Ends, gave_back, granted, be16, be32}
use srvd.Field.View.{Item}
use srvd.Packet.View.{packet_of}
use srvd.Packet.Ownership.{slots_blocks}
use srvd.Packet.Update.Append.{single}
use srvd.Serial.Entries.{IsValue}
use srvd.Serial.Unserialize.{IsItem}
use srvd.Conf.Reader.Documents.{Line}
use srvd.Conf.File.{fconf_default}
use srvd.Server.{Server}
use srvd.Listener.{Handler, Connection, protocol_status, serve}
use srvd.Listener.Serve.{answer_with}
use srvd.Service.Passwd.{request_uid}
use srvd.Service.EndToEnd.{single-IsWire}
use srvd.Nss.Passwd.{Passwd, getpwuid_r}
use srvd.Nss.Passwd.Layout.{Filled}
use srvd.Nss.Passwd.Populate.{start_of}
use srvd.Nss.Passwd.Lookup.{reply_for, getpwuid_r-answered}
use srvd.Stack.{System, linked_query}
use srvd.Stack.Sockets.{Carries, Replies}
use srvd.Stack.Configured.{Configured}
use srvd.Stack.Trip.{linked_query-serve}
use srvd.Serial.Serialize.{encode}

-- No value of a packet that the wire format can carry is empty.
values-Filled : (vs : List Bytes) → All IsValue vs → All (λ v. v ≢ []) vs
values-Filled [] h = tt
values-Filled (v ∷ vs) ((filled, small), h) = (filled, values-Filled vs h)

pub items-Filled : (its : List Item) → All IsItem its → All Filled its
items-Filled [] h = tt
items-Filled (it ∷ its) ((tag, count, values), h) =
    (values-Filled it.values values, items-Filled its h)

module _ (system : System) (path : Bytes) (l : Line) (ls : List Line)
    (configured : Configured system path l ls) (accepted : Bytes → Connection)
    (monitor : Server Handler) (m₂ : Mem) (carries : Carries system.socket accepted monitor m₂)
    (plenty₂ : Plenty m₂) where
  -- With memory at hand on both sides, a client whose default configuration file has lines that name
  -- the adapter "unsock" and a path, sockets that carry all of both directions, so that the server hears
  -- what the client wrote and the client reads what the server wrote then, a buffer as large as
  -- `bufsize` says, and an answer that the wire format can carry with no second field of the type of
  -- the status: when a program asks for a user id, the server gets a request for that id, a
  -- `uint32_t`, alone, to which it writes one answer; and the program gets what the code and the fields
  -- stand for that the handler filled in for this request: "not found", "unavailable" or "try again",
  -- or the structure and the buffer that the fields lay out.
  pub getpwuid_r-serve :
      (has_gecos : Bool) (bufsize uid : ℕ) (pwd : Passwd) (original : Bytes) (reply : List Item)
      (code : ℕ) (m : Mem)
      → bufsize ≤ length original
      → Plenty m
      → Replies monitor m₂ (single request_uid (be32 uid)) [] reply code
      → Ends
          (λ r. r ≡ some (true, encode (answer_with code reply)))
          (serve monitor (accepted (encode (single request_uid (be32 uid) ∷ []))) m₂)
        × ((m' : Mem) × (getpwuid_r has_gecos bufsize
                (linked_query system fconf_default)
                uid
                (start_of pwd original)
                m
              ≡ ok
                  (code % 2 ^ 16, reply_for has_gecos bufsize reply (code % 2 ^ 16) pwd original)
                  m'))
  getpwuid_r-serve has_gecos bufsize uid pwd original reply code m whole plenty replies =
      let asked = single request_uid (be32 uid) in
      let (served, (m₁, answered)) =
        linked_query-serve system path l ls configured accepted monitor m₂ carries plenty₂ asked []
          reply code (granted 3 m) plenty
          (single-IsWire request_uid (be32 uid) (omega arith) ((λ e. cc), omega arith)) replies in
      let blocks = slots_blocks ((packet_of (answer_with code reply)).fields) in
      (
        served,
        (
          gave_back blocks (gave_back 3 m₁),
          getpwuid_r-answered has_gecos bufsize (single protocol_status (be16 code)) reply
              (code % 2 ^ 16) pwd original (items-Filled reply replies.wire.items.1) whole
              (linked_query system fconf_default) uid m m₁ plenty answered,
        ),
      )
