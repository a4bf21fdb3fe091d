-- ===== src/Tests.antt =====
-- Data of the tests: a memory without limits, and packets of lib/srvd/libsrvd/service/nss/passwd.c.
mod Wire
mod Packets
mod Registry
mod Services
mod Sockets
mod Listeners
mod Configurations
mod Switches
mod Enumerations
mod Pointers
mod Sharing
mod Trips
use srvd.Base.{◌≡◌, refl, true, List, [], ◌∷◌, All, arith}
use srvd.Serial.Encode.{Counted}
use srvd.Serial.Entries.{Unique}
use srvd.Serial.Unserialize.{IsItem}
use srvd.Serial.RoundTrip.{IsWire}
use srvd.Memory.{Mem, Plenty}
use srvd.Field.View.{Item}
use srvd.Serial.{SerialPacket, null}

abbrev pub start : Mem
start = record { succeeds = λ k. true; calls = 0; allocated = 0; released = 0 }

pub start-Plenty : Plenty start
start-Plenty k = refl

-- The response to a request for a user: a status and a name.
abbrev pub user : List Item
user =
    record { tag = 65535; values = (0 ∷ 0 ∷ []) ∷ [] }
    ∷ record { tag = 751; values = (114 ∷ 111 ∷ []) ∷ (7 ∷ []) ∷ [] }
    ∷ []

abbrev pub uid : Item
uid = record { tag = 702; values = (1 ∷ 2 ∷ 3 ∷ 4 ∷ []) ∷ [] }

abbrev pub idle : SerialPacket
idle = record { size = 0; body_size = 0; field_count = 0; content = null }

pub user-Counted : Counted user
user-Counted = (omega arith, (omega arith, (omega arith, tt)))

pub user-items : All IsItem user
user-items = (
  (omega arith, omega arith, ((λ e. cc, omega arith), tt)),
  ((omega arith, omega arith, ((λ e. cc, omega arith), ((λ e. cc, omega arith), tt))), tt),
)

pub user-Unique : Unique user
user-Unique = ((λ e. omega arith, tt), (tt, tt))

pub user-IsWire : IsWire user
user-IsWire = record {
  counted = user-Counted;
  small = omega arith;
  items = user-items;
  unique = user-Unique;
}
