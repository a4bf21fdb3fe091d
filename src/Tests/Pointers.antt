-- ===== src/Tests/Pointers.antt =====
-- The lists of lib/srvd/libsrvd/protocol/packet.c and server.c by their pointers, at lists of one field
-- and of two services.
use srvd.Base.{ℕ, ◌≡◌, refl, true, false, none, some, [], ◌∷◌, ◌==◌, if◌then◌else◌}
use srvd.Field.{Field}
use srvd.Field.View.{field_of}
use srvd.Packet.{field_add_locked, field_inject_locked}
use srvd.Packet.View.{packet_of}
use srvd.Packet.Update.Append.{single}
use srvd.Links.{Store, Links, add_locked, inject_locked, walk, release}
use srvd.Links.Segment.{node, has}
use srvd.Links.Refinement.{Represents, Agrees, locked-Agrees, walk-release}
use srvd.Server.{Service, Server, service_remove}
use srvd.Server.Nodes.{NodeStore, remove_node}
use srvd.Server.Nodes.Refinement.{Keeps, Removed, service_remove-remove_node}
use srvd.Tests.{start, uid}

-- The list has the node at 8; the field at 24 is not in it yet.
abbrev store : Store Field
store p =
    if p == 8
    then some (node (field_of uid) none none)
    else if p == 24
    then some (node (field_of (single 701 (7 ∷ []))) none none)
    else none

abbrev links : Links
links = record { head = some 8; tail = some 8; count = 1 }

abbrev one : Represents store links (uid ∷ [])
one = record {
  cells = (8, field_of uid) ∷ [];
  linked = (refl, (none, refl, (refl, refl)));
  apart = (refl, tt);
  carried = refl;
  counted = refl;
}

locked-Agrees_example :
    Agrees store one.cells 24
      (add_locked links 24 store)
      (field_add_locked (packet_of (uid ∷ [])) (field_of (single 701 (7 ∷ []))) start)
      (uid ∷ single 701 (7 ∷ []) ∷ [])
      start
    × Agrees store one.cells 24
        (inject_locked links 24 store)
        (field_inject_locked (packet_of (uid ∷ [])) (field_of (single 701 (7 ∷ []))) start)
        (single 701 (7 ∷ []) ∷ uid ∷ [])
        start
locked-Agrees_example =
    locked-Agrees store links (uid ∷ []) (single 701 (7 ∷ [])) 24 start one refl refl

walk-release_example :
    (walk 1 (some 8) store ≡ some (field_of uid ∷ []))
    × ((g : Store Field) × (release 1 (some 8) store ≡ some g)
        × (((q : ℕ) → has q one.cells ≡ true → g q ≡ none)
            × ((q : ℕ) → has q one.cells ≡ false → g q ≡ store q)))
walk-release_example = walk-release store links (uid ∷ []) one

-- Two services at 8 and 24.
abbrev service_of : ℕ → Service ℕ
service_of t = record { type = t; handler = 1 }

abbrev nodes : NodeStore ℕ
nodes p =
    if p == 8
    then some (record { service = service_of 701; next = some 24 })
    else if p == 24
    then some (record { service = service_of 702; next = none })
    else none

abbrev registry : Server ℕ
registry = record { services = service_of 701 ∷ service_of 702 ∷ []; executing = false }

abbrev two : Keeps nodes (some 8) registry.services
two = record {
  cells = (8, service_of 701) ∷ (24, service_of 702) ∷ [];
  chain = (refl, (some 24, refl, (refl, (none, refl, refl))));
  apart = (refl, (refl, tt));
  held = refl;
}

service_remove-remove_node_example :
    Removed nodes two.cells
      (remove_node 2 702 none (some 8) (some 8) nodes)
      (service_remove registry 702 start)
service_remove-remove_node_example =
    service_remove-remove_node registry 702 (some 8) nodes start two
