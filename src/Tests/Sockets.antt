-- ===== src/Tests/Sockets.antt =====
-- The properties of the client over a socket at concrete packets.
use srvd.Base.{◌≡◌, refl, true, false, some, [], ◌∷◌}
use srvd.Memory.{ok, taken, gave_back}
use srvd.Packet.View.{packet_of}
use srvd.Serial.Encode.{encode_items, encode_header}
use srvd.Serial.Unserialize.{grant_items}
use srvd.Unsock.{Unsock, unsock_read, unsock_connect, unsock_disconnect}
use srvd.Unsock.Transfer.{unsock_read-encode}
use srvd.Tests.{start, start-Plenty, user, idle, user-IsWire}

abbrev fresh_client : Unsock
fresh_client = record { connected = false; sun_path = 47 ∷ 115 ∷ 0 ∷ [] }

abbrev open_client : Unsock
open_client = record { connected = true; sun_path = 47 ∷ 115 ∷ 0 ∷ [] }

unsock_read-encode_example :
    unsock_read idle open_client
      (some (encode_header user))
      (λ n. some (encode_items user))
      (packet_of [])
      start
    ≡ ok (true, packet_of user) (gave_back 1 (grant_items user (taken start)))
unsock_read-encode_example =
    unsock_read-encode idle open_client (λ n. some (encode_items user)) user start refl user-IsWire
      refl start-Plenty

connects : unsock_connect fresh_client true ≡ (true, open_client)
unfolding unsock_connect
connects = refl

closes : unsock_disconnect open_client true ≡ (true, open_client)
unfolding unsock_disconnect
closes = refl
