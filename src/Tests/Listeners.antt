-- ===== src/Tests/Listeners.antt =====
-- The properties of the server over a socket at concrete requests.
use srvd.Base.{◌≡◌, refl, true, some, List, [], ◌∷◌, length, arith}
use srvd.Memory.{Mem, fault, pure, Ends, gave_back, taken}
use srvd.Field.View.{Item}
use srvd.Packet.View.{packet_of}
use srvd.Packet.Update.Append.{single}
use srvd.Serial.Encode.{encode_items, encode_header}
use srvd.Serial.Unserialize.{grant_items}
use srvd.Serial.RoundTrip.{IsWire}
use srvd.Serial.Rejects.{with_empty}
use srvd.Server.{Server, service_get, service_loop}
use srvd.Listener.{Handler, Connection, serve}
use srvd.Serial.Serialize.{encode}
use srvd.Listener.Serve.{handled, answer_with, serve-Handled}
use srvd.Listener.Crash.{serve-fault}
use srvd.Tests.{start, start-Plenty, uid, idle}

-- A handler that answers with a name.
abbrev pub named : List Item
named = single 751 (114 ∷ 0 ∷ []) ∷ []

abbrev pub by_uid : Handler
by_uid = λ request response. pure (record { packet = packet_of named; status = 0 })

abbrev pub monitor : Server Handler
monitor = record { services = record { type = 702; handler = by_uid } ∷ []; executing = true }

abbrev pub asked : Connection
asked = record {
  first = some (encode_header (uid ∷ []));
  reads = λ n. some (encode_items (uid ∷ []));
  writes = λ bytes. some (length bytes);
  garbage = idle;
}

pub uid-IsWire : IsWire (uid ∷ [])
uid-IsWire = record {
  counted = (omega arith, (omega arith, tt));
  small = omega arith;
  items = ((omega arith, omega arith, ((λ e. cc, omega arith), tt)), tt);
  unique = (tt, tt);
}

pub has_handler : service_get monitor 702 ≡ some by_uid
unfolding service_get service_loop
has_handler = refl

abbrev pub heard : Mem
heard = gave_back 1 (grant_items (uid ∷ []) (taken start))

serve-Handled_example :
    Ends (λ r. r ≡ some (true, encode (answer_with 0 named))) (serve monitor asked start)
serve-Handled_example =
    serve-Handled monitor asked uid [] named 0 start heard refl refl uid-IsWire start-Plenty
      (handled {m₁ = heard} {handler = by_uid} has_handler refl) refl start-Plenty
      (omega arith, (omega arith, (omega arith, tt)))

-- A client that sends an empty value.
abbrev blank : List Item
blank = with_empty 701 [] [] ∷ []

abbrev hostile : Connection
hostile = record {
  first = some (encode_header blank);
  reads = λ n. some (encode_items blank);
  writes = λ bytes. some (length bytes);
  garbage = idle;
}

serve-fault_example : serve monitor hostile start ≡ fault
serve-fault_example =
    serve-fault monitor hostile [] 701 [] [] [] start refl refl (omega arith) (omega arith) tt
      (omega arith) (omega arith) tt (tt, tt) start-Plenty
